-- ===== src/Dedup/UnionFind/Links.antt =====
-- The number of links of a dict, which bounds the fuel that a root takes.
use janasunani.Base.{
  ℕ, suc, ◌+◌, ◌≤◌, ◌≡◌, ◌≢◌, ite, none, some, List, [], ◌∷◌, arith, lookup, insert, length,
}
use janasunani.Dedup.UnionFind.Roots.{Chain}

module _ {K : Type 0} (dec : Discrete K) where
  -- The entries that are not their own parent.
  pub links : List (K × K) → ℕ
  links [] = 0
  links ((k, v) ∷ p) = ite (dec v k) 0 1 + links p

  pub links-le : (p : List (K × K)) → links p ≤ length p
  unfolding links
  links-le [] = omega arith
  links-le ((k, v) ∷ p) = ground (arith, links-le p)

  pub links-insert_new :
      (x : K) (p : List (K × K)) → lookup dec x p ≡ none → links (insert dec x x p) ≡ links p
  unfolding links lookup insert
  links-insert_new x [] h = ground arith
  links-insert_new x ((k, v) ∷ p) h = ground (arith, links-insert_new x p)

  pub links-insert_over :
      (x y r : K) (p : List (K × K))
      → lookup dec x p ≡ some y
      → y ≢ x
      → r ≢ x
      → links (insert dec x r p) ≡ links p
  unfolding links lookup insert
  links-insert_over x y r [] h ne ne' = cc
  links-insert_over x y r ((k, v) ∷ p) h ne ne' = ground (arith, links-insert_over x y r p)

  pub links-insert_link :
      (a b : K) (p : List (K × K))
      → lookup dec a p ≡ some a
      → b ≢ a
      → links (insert dec a b p) ≡ suc (links p)
  unfolding links lookup insert
  links-insert_link a b [] h ne = cc
  links-insert_link a b ((k, v) ∷ p) h ne = ground (arith, links-insert_link a b p)

  -- Every item of the dict reaches a root within the fuel that `find` takes.
  abbrev pub IsRooted : List (K × K) → Type 0
  IsRooted p = (x y : K) → lookup dec x p ≡ some y → (r : K) × Chain dec p (suc (links p)) x r
