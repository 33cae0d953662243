-- ===== src/Dedup/Verify/States.antt =====
-- The states between comparisons, and what the shingle cache holds in them.
use janasunani.Base.{
  ◌+◌, ◌≡◌, refl, inl, inr, Bool, true, false, some, List, [], ◌∷◌, ◌++◌, arith, length, filterb,
  lookup, insert, lookup-insert, Text, Elem, Option-cases, map,
}
use janasunani.Dedup.UnionFind.Roots.{Joined}
use janasunani.Dedup.UnionFind.Links.{IsRooted}
use janasunani.Dedup.UnionFind.Find.{HasLinks}
use janasunani.Dedup.UnionFind.Union.{Merged}
use janasunani.Dedup.UnionFind.Total.{Justifies}
use janasunani.Dedup.Verify.Jaccard.{jaccard_similarity, meets}
use janasunani.Dedup.Verify.{Policy, Work, text_of, shingles_for}

module _ {K : Type 0} (dec : Discrete K) (o : Policy K) where
  -- The shingles of a ticket's text, with no cache.
  abbrev pub true_shingles : K → List Text
  true_shingles k = o.shingles (text_of dec o k)

  -- The pair clears the threshold, on the texts themselves.
  abbrev pub matches : K × K → Bool
  matches e = meets o.threshold (jaccard_similarity (true_shingles e.0) (true_shingles e.1))

  -- The cache holds what would be computed.
  abbrev pub IsCoherent : List (K × List Text) → Type 0
  IsCoherent cache = (k : K) (s : List Text) → lookup dec k cache ≡ some s → s ≡ true_shingles k

  -- The state is fit for comparisons.
  pub record IsReady (Rel : K → K → Type 0) (w : Work K) : Type 0 where
    pub coherent : IsCoherent w.shingle_cache
    pub rooted : IsRooted dec w.parent
    pub bonded : HasLinks dec Rel w.parent

  -- `w'` is the state after the comparison of `pairs`.
  pub record Round (Rel : K → K → Type 0) (w : Work K) (pairs : List (K × K)) (w' : Work K)
      : Type 0 where
    pub coherent : IsCoherent w'.shingle_cache
    pub merged : Merged dec Rel w.parent w'.parent
    pub counted : w'.comparisons ≡ w.comparisons + length pairs
    pub hits : w'.verified ≡ w.verified + length (filterb matches pairs)
    pub joined : (a b : K) → Elem (a, b) pairs → matches (a, b) ≡ true → Joined dec w'.parent a b

  -- A link between matching items is justified.
  abbrev pub Just : (K → K → Type 0) → K × K → Type 0
  Just Rel e = matches e ≡ true → Justifies dec Rel (λ _ _. false) e

-- The pairs of an anchor and a later member, in the order of the loops.
abbrev pub cross : {K : Type 0} → List K → List K → List (K × K)
cross anchors [] = []
cross anchors (member ∷ members) = map (λ a. (a, member)) anchors ++ cross anchors members

module _ {K : Type 0} (dec : Discrete K) (o : Policy K) where
  insert-IsCoherent :
      (k : K) (cache : List (K × List Text))
      → IsCoherent dec o cache
      → IsCoherent dec o (insert dec k (true_shingles dec o k) cache)
  insert-IsCoherent k cache c j s h = elim (dec k j) [
    | yes e ↦ ground (arith, lookup-insert dec k j (true_shingles dec o k) cache)
    | no ne ↦ c j s (ground (arith, lookup-insert dec k j (true_shingles dec o k) cache))
  ]

  pub shingles_for_lem :
      (w : Work K) (k : K)
      → IsCoherent dec o w.shingle_cache
      → ((shingles_for dec o w k).0 ≡ true_shingles dec o k)
        × IsCoherent dec o (shingles_for dec o w k).1.shingle_cache
        × ((shingles_for dec o w k).1.parent ≡ w.parent)
        × ((shingles_for dec o w k).1.verified ≡ w.verified)
        × ((shingles_for dec o w k).1.comparisons ≡ w.comparisons)
  unfolding shingles_for
  shingles_for_lem w k c = elim (Option-cases (lookup dec k w.shingle_cache)) [
    | inl e ↦ rw (e, shingles_for) (refl, insert-IsCoherent k w.shingle_cache c, refl, refl, refl)
    | inr (s, e) ↦ rw (e, shingles_for) (c k s e, c, refl, refl, refl)
  ]
