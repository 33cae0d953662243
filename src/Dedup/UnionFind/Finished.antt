-- ===== src/Dedup/UnionFind/Finished.antt =====
-- The dict after the loops of `union_find_groups`, and what is read off it.
use janasunani.Base.{
  ◌≡◌, Bool, some, List, [], ◌∷◌, lookup, inl, inr, sym, ap, ◌∙◌, All, Elem, zero, suc,
}
use janasunani.Dedup.UnionFind.{root_from, seed, keys, union_find_groups}
use janasunani.Dedup.UnionFind.Roots.{Root, Joined, root_unique, root_cases}
use janasunani.Dedup.UnionFind.Links.{IsRooted}
use janasunani.Dedup.UnionFind.Find.{HasLinks, Grown}
use janasunani.Dedup.UnionFind.Union.{Merged-Grown}
use janasunani.Dedup.UnionFind.Total.{Justifies, union_all_total}
use janasunani.Dedup.UnionFind.Ids.{
  lookup-nil, lookup-keys, keys-lookup, seed_grows, seed_all, group_ids_total,
}

-- A finished run: the dict after the loops, and what is read off it.
module _ {K : Type 0} (dec : Discrete K) (Rel : K → K → Type 0) where
  pub record Outcome (pairs : List (K × K)) (items : List K) (g : List (K × K)) : Type 0 where
    pub parent : List (K × K)
    pub rooted : IsRooted dec parent
    pub bonded : HasLinks dec Rel parent
    pub read : (x r : K) → lookup dec x g ≡ some r → Root dec parent x r
    pub listed : (x r : K) → Root dec parent x r → lookup dec x g ≡ some r
    pub seeded : (x : K) → Elem x items → (r : K) × Root dec parent x r
    pub paired : All (λ e. Joined dec parent e.0 e.1) pairs

module _ {K : Type 0} (dec : Discrete K) (Rel : K → K → Type 0) (same : (x : K) → Rel x x)
    (trans : (x y z : K) → Rel x y → Rel y z → Rel x z) where
  Joined-grows :
      (p q : List (K × K)) (pairs : List (K × K))
      → Grown dec Rel p q
      → All (λ e. Joined dec p e.0 e.1) pairs
      → All (λ e. Joined dec q e.0 e.1) pairs
  Joined-grows p q [] g js = tt
  Joined-grows p q ((a, b) ∷ pairs) g (j, js) =
      ((Merged-Grown dec Rel p q g).joined a b j, Joined-grows p q pairs g js)

  Root-key : (p : List (K × K)) (x r : K) → Root dec p x r → Elem x (keys dec p)
  Root-key p x r (zero, c) = unfold root_from in cc
  Root-key p x r (suc n, c) = elim (root_cases dec n p x r c) [
    | inl (self, _) ↦ lookup-keys dec x x p self
    | inr (y, at, _, _) ↦ lookup-keys dec x y p at
  ]

  pub groups_total :
      (less : K → K → Bool) (pairs : List (K × K)) (items : List K)
      → All (Justifies dec Rel less) pairs
      → (g : List (K × K)) × (union_find_groups dec less pairs items ≡ some g)
        × Outcome dec Rel pairs items g
  unfolding union_find_groups
  groups_total less pairs items just =
      let (p, done, m, js) =
        union_all_total dec Rel less same trans [] pairs (λ x y e. absurd (lookup-nil dec x y e))
          (λ x y e. absurd (lookup-nil dec x y e)) just in
      let grown = seed_grows dec Rel same trans items p m.rooted m.bonded in
      let q = seed dec items p in
      let there : (x : K) → Elem x (keys dec q) → (r : K) × Root dec q x r = λ x e.
        let (y, at) = keys-lookup dec x q e in let (r, c) = grown.rooted x y at in (r, (_, c)) in
      let (g, made, found, named) =
        group_ids_total dec Rel same trans (keys dec q) q grown.rooted grown.bonded there in
      (
        g,
        rw (done, made),
        record {
          parent = q;
          rooted = grown.rooted;
          bonded = grown.bonded;
          read = λ x r at. let (s, at', c) = found x (named x r at) in (c.0, c.1 ∙ (sym at' ∙ at));
          listed = λ x r c.
              let (s, at, d) = found x (Root-key q x r c) in
              at ∙ ap some (root_unique dec d.0 c.0 q x s r d.1 c.1);
          seeded = seed_all dec Rel same trans items p m.rooted m.bonded;
          paired = Joined-grows p q pairs grown js;
        },
      )
