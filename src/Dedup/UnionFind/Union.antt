-- ===== src/Dedup/UnionFind/Union.antt =====
-- `union` joins two items, keeps what was joined, and adds only links that the pairs justify.
use janasunani.Base.{suc, ◌≡◌, ◌≢◌, ite, some, List, arith, lookup, insert, inl, inr, subst}
use janasunani.Dedup.UnionFind.Roots.{
  Chain, Root, Joined, root_from_mono, root_linked, insert_cases,
}
use janasunani.Dedup.UnionFind.Links.{links, IsRooted, links-insert_link}
use janasunani.Dedup.UnionFind.Find.{HasLinks, Grown}

module _ {K : Type 0} (dec : Discrete K) (Rel : K → K → Type 0) where
  -- `q` is a dict after `p`: well formed, with every item still there and what was joined joined.
  pub record Merged (p q : List (K × K)) : Type 0 where
    pub rooted : IsRooted dec q
    pub bonded : HasLinks dec Rel q
    pub present : (y s : K) → Root dec p y s → (t : K) × Root dec q y t
    pub joined : (y z : K) → Joined dec p y z → Joined dec q y z

  pub Merged-trans : (p q r : List (K × K)) → Merged p q → Merged q r → Merged p r
  Merged-trans p q r g h = record {
    rooted = h.rooted;
    bonded = h.bonded;
    present = λ y s c. let (t, d) = g.present y s c in h.present y t d;
    joined = λ y z c. h.joined y z (g.joined y z c);
  }

  pub Merged-Grown : (p q : List (K × K)) → Grown dec Rel p q → Merged p q
  Merged-Grown p q g = record {
    rooted = g.rooted;
    bonded = g.bonded;
    present = λ y s c. (s, (c.0, g.roots c.0 y s c.1));
    joined = λ y z j. (j.0, (j.1.0, g.roots j.1.0 y j.0 j.1.1), (j.2.0, g.roots j.2.0 z j.0 j.2.1));
  }

module _ {K : Type 0} (dec : Discrete K) (Rel : K → K → Type 0) where
  -- The root `c` goes under the root `d`.
  module _ (p : List (K × K)) (c d : K) (hc : lookup dec c p ≡ some c)
      (hd : lookup dec d p ≡ some d) (ne : d ≢ c) where
    abbrev pub moved : K → K
    moved s = ite (dec s c) d s

    pub root_moved : (y s : K) → Root dec p y s → Root dec (insert dec c d p) y (moved s)
    root_moved y s (n, h) = (suc n, root_linked dec n p c d y s hc hd ne h)

    pub Merged-link :
        IsRooted dec p → HasLinks dec Rel p → Rel c d → Merged dec Rel p (insert dec c d p)
    Merged-link w b rel = record {
      rooted = λ z t h. elim (insert_cases dec c z d t p h) [
        | inl (q, _) ↦ again z c (subst (λ u. lookup dec u p ≡ some c) q hc)
        | inr (_, old) ↦ again z t old
      ];
      bonded = λ z t h. elim (insert_cases dec c z d t p h) [
        | inl (q, q') ↦ subst (Rel z) q' (subst (λ u. Rel u d) q rel)
        | inr (_, old) ↦ b z t old
      ];
      present = λ y s h. (moved s, root_moved y s h);
      joined = λ y z j. (moved j.0, root_moved y j.0 j.1, root_moved z j.0 j.2);
    }
      where
        again :
            (z t : K)
            → lookup dec z p ≡ some t
            → (r : K) × Chain dec (insert dec c d p) (suc (links dec (insert dec c d p))) z r
        again z t old =
            let (r, h) = w z t old in
            (
              moved r,
              root_from_mono dec (suc (suc (links dec p))) (suc (links dec (insert dec c d p))) _ z
                  (moved r) (omega (arith, links-insert_link dec c d p hc ne))
                  (root_linked dec (suc (links dec p)) p c d z r hc hd ne h),
            )
