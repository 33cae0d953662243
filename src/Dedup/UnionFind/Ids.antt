-- ===== src/Dedup/UnionFind/Ids.antt =====
-- What the loops after the pairs give: `setdefault` over the items, and the comprehension over the
-- dict.
use janasunani.Base.{
  ◌≡◌, ◌≢◌, ◌⊎◌, refl, some, List, [], ◌∷◌, arith, lookup, set_default, inl, inr, sym, subst, ◌∙◌,
  Elem,
}
use janasunani.Dedup.UnionFind.{seed, group_ids, keys}
use janasunani.Dedup.UnionFind.Roots.{Chain, Root, root_unique}
use janasunani.Dedup.UnionFind.Links.{IsRooted}
use janasunani.Dedup.UnionFind.Find.{
  HasLinks, Grown, Grown-fresh, Grown-trans, has_fresh, find_total,
}

module _ {K : Type 0} (dec : Discrete K) where
  pub lookup-nil : (x r : K) → lookup {V = K} dec x [] ≢ some r
  unfolding lookup
  lookup-nil x r e = cc

  pub lookup-keys : (x y : K) (p : List (K × K)) → lookup dec x p ≡ some y → Elem x (keys dec p)
  unfolding lookup
  lookup-keys x y [] h = absurd (cc)
  lookup-keys x y ((k, v) ∷ p) h = elim (dec k x) [
    | yes e ↦ inl (sym e)
    | no ne ↦ inr (lookup-keys x y p (ground arith))
  ]

  pub keys-lookup :
      (x : K) (p : List (K × K)) → Elem x (keys dec p) → (y : K) × (lookup dec x p ≡ some y)
  unfolding lookup
  keys-lookup x [] h = absurd h
  keys-lookup x ((k, v) ∷ p) (inl e) = (v, ground arith)
  keys-lookup x ((k, v) ∷ p) (inr h) =
      let (y, found) = keys-lookup x p h in
      elim (dec k x) [ yes e ↦ (v, ground arith) | no ne ↦ (y, ground arith) ]

module _ {K : Type 0} (dec : Discrete K) (Rel : K → K → Type 0) (same : (x : K) → Rel x x)
    (trans : (x y z : K) → Rel x y → Rel y z → Rel x z) where
  pub seed_grows :
      (items : List K) (p : List (K × K))
      → IsRooted dec p
      → HasLinks dec Rel p
      → Grown dec Rel p (seed dec items p)
  unfolding seed
  seed_grows [] p w h = record { rooted = w; bonded = h; roots = λ n y s c. c }
  seed_grows (x ∷ items) p w h =
      let g = Grown-fresh dec Rel same trans x p w h in
      Grown-trans dec Rel same trans p (set_default dec x x p) _ g
        (seed_grows items _ g.rooted g.bonded)

  pub seed_all :
      (items : List K) (p : List (K × K))
      → IsRooted dec p
      → HasLinks dec Rel p
      → (x : K) → Elem x items
      → (r : K) × Root dec (seed dec items p) x r
  unfolding seed
  seed_all [] p w h x e = absurd e
  seed_all (i ∷ items) p w h x e =
      let g = Grown-fresh dec Rel same trans i p w h in
      let rest = seed_grows items _ g.rooted g.bonded in
      elim e [
        | inl here ↦
            let (y, found) = has_fresh dec Rel same trans i p in
            let (r, c) = g.rooted i y found in
            (
              r,
              subst (λ t. Root dec (seed dec items (set_default dec i i p)) t r) (sym here)
                  (_, rest.roots _ i r c),
            )
        | inr there ↦ seed_all items _ g.rooted g.bonded x there
      ]

  -- A root after `find` was the root before, of an item that had one.
  root_back :
      (p q : List (K × K)) (x s : K)
      → Grown dec Rel p q
      → ((t : K) × Root dec p x t)
      → Root dec q x s
      → Root dec p x s
  root_back p q x s g (t, (n, c)) (m, d) =
      (n, subst (Chain dec p n x) (root_unique dec n m q x t s (g.roots n x t c) d) c)

  lookup-cons_cases :
      (k x r s : K) (g : List (K × K))
      → lookup dec x ((k, r) ∷ g) ≡ some s
      → ((k ≡ x) × (r ≡ s)) ⊎ ((k ≢ x) × (lookup dec x g ≡ some s))
  unfolding lookup
  lookup-cons_cases k x r s g h = elim (dec k x) [
    | yes e ↦ inl (e, ground arith)
    | no ne ↦ inr (ne, ground arith)
  ]

  lookup-cons_here : (k x r : K) (g : List (K × K)) → k ≡ x → lookup dec x ((k, r) ∷ g) ≡ some r
  unfolding lookup
  lookup-cons_here k x r g e = ground arith

  lookup-cons_there :
      (k x r : K) (g : List (K × K)) → k ≢ x → lookup dec x ((k, r) ∷ g) ≡ lookup dec x g
  unfolding lookup
  lookup-cons_there k x r g e = ground arith

  -- The comprehension reads off the roots.
  pub group_ids_total :
      (ks : List K) (p : List (K × K))
      → IsRooted dec p
      → HasLinks dec Rel p
      → ((x : K) → Elem x ks → (r : K) × Root dec p x r)
      → (g : List (K × K)) × (group_ids dec ks p ≡ some g)
        × ((x : K) → Elem x ks → (r : K) × (lookup dec x g ≡ some r) × Root dec p x r)
        × ((x r : K) → lookup dec x g ≡ some r → Elem x ks)
  unfolding group_ids
  group_ids_total [] p w h there =
      ([], refl, (λ x e. absurd e), λ x r e. absurd (lookup-nil dec x r e))
  group_ids_total (k ∷ ks) p w h there =
      let (r, q, f, grown, c) = find_total dec Rel same trans p k w h in
      let (g, done, found, named) =
        group_ids_total ks q grown.rooted grown.bonded
          (λ x e. let (t, (n, d)) = there x (inr e) in (t, (n, grown.roots n x t d))) in
      (
        (k, r) ∷ g,
        rw (f, done),
        (λ x e. elim (dec k x) [
          | yes here ↦ (
            r,
            lookup-cons_here k x r g here,
            root_back p q x r grown (there x e) (subst (λ t. Root dec q t r) here c),
          )
          | no away ↦ elim e [
            | inl here ↦ absurd (away (sym here))
            | inr e' ↦
                let (s, at, d) = found x e' in
                (
                  s,
                  lookup-cons_there k x r g away ∙ at,
                  root_back p q x s grown (there x (inr e')) d,
                )
          ]
        ]),
        λ x s at. elim (lookup-cons_cases k x r s g at) [
          | inl (here, _) ↦ inl (sym here)
          | inr (_, at') ↦ inr (named x s at')
        ],
      )

module _ {K : Type 0} (dec : Discrete K) (Rel : K → K → Type 0) (same : (x : K) → Rel x x)
    (trans : (x y z : K) → Rel x y → Rel y z → Rel x z) where
  -- The comprehension over any items, which `find` adds where they are missing.
  pub record Listing (ks : List K) (p g : List (K × K)) : Type 0 where
    pub parent : List (K × K)
    pub grown : Grown dec Rel p parent
    pub listed : (x : K) → Elem x ks → (r : K) × (lookup dec x g ≡ some r) × Root dec parent x r
    pub named : (x r : K) → lookup dec x g ≡ some r → Elem x ks

  pub group_ids-Listing :
      (ks : List K) (p : List (K × K))
      → IsRooted dec p
      → HasLinks dec Rel p
      → (g : List (K × K)) × (group_ids dec ks p ≡ some g) × Listing ks p g
  unfolding group_ids
  group_ids-Listing [] p w h = (
    [],
    refl,
    record {
      parent = p;
      grown = record { rooted = w; bonded = h; roots = λ n y s c. c };
      listed = λ x e. absurd e;
      named = λ x r e. absurd (lookup-nil dec x r e);
    },
  )
  group_ids-Listing (k ∷ ks) p w h =
      let (r, q, f, grown, c) = find_total dec Rel same trans p k w h in
      let (g, done, l) = group_ids-Listing ks q grown.rooted grown.bonded in
      (
        (k, r) ∷ g,
        rw (f, done),
        record {
          parent = l.parent;
          grown = Grown-trans dec Rel same trans p q l.parent grown l.grown;
          listed = λ x e. elim (dec k x) [
            | yes here ↦ (
              r,
              lookup-cons_here dec Rel same trans k x r g here,
              subst (λ t. Root dec l.parent t r) here (c.0, l.grown.roots c.0 k r c.1),
            )
            | no away ↦ elim e [
              | inl here ↦ absurd (away (sym here))
              | inr e' ↦
                  let (s, at, d) = l.listed x e' in
                  (s, lookup-cons_there dec Rel same trans k x r g away ∙ at, d)
            ]
          ];
          named = λ x s at. elim (lookup-cons_cases dec Rel same trans k x r s g at) [
            | inl (here, _) ↦ inl (sym here)
            | inr (_, at') ↦ inr (l.named x s at')
          ];
        },
      )
