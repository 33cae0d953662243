-- ===== src/Dedup/UnionFind/Find.antt =====
-- `find` returns the root of its item and moves no root.
use janasunani.Base.{
  ℕ, zero, suc, ◌≡◌, ◌≢◌, refl, none, some, List, arith, lookup, insert, set_default, length,
  Option-cases, inl, inr, sym, ap, subst, ◌∙◌,
}
use janasunani.Dedup.UnionFind.{root_from, compress, find}
use janasunani.Dedup.UnionFind.Roots.{
  Chain, Root, root_self, root_cases, root_from_mono, root_fixed, root_extend, root_compressed,
  lookup-insert_ne, lookup-insert_self, insert_cases,
}
use janasunani.Dedup.UnionFind.Links.{
  links, IsRooted, links-le, links-insert_new, links-insert_over,
}

module _ {K : Type 0} (dec : Discrete K) (Rel : K → K → Type 0) where
  abbrev pub HasLinks : List (K × K) → Type 0
  HasLinks p = (x y : K) → lookup dec x p ≡ some y → Rel x y

  -- `q` is a dict after `p`: well formed, and nothing has lost its root.
  pub record Grown (p q : List (K × K)) : Type 0 where
    pub rooted : IsRooted dec q
    pub bonded : HasLinks q
    pub roots : (n : ℕ) (y s : K) → Chain dec p n y s → Chain dec q n y s

module _ {K : Type 0} (dec : Discrete K) (Rel : K → K → Type 0) (same : (x : K) → Rel x x)
    (trans : (x y z : K) → Rel x y → Rel y z → Rel x z) where
  pub Chain-rel :
      (n : ℕ) (p : List (K × K)) (x r : K) → HasLinks dec Rel p → Chain dec p n x r → Rel x r
  Chain-rel zero p x r b h = unfold root_from in cc
  Chain-rel (suc n) p x r b h = elim (root_cases dec n p x r h) [
    | inl (self, e) ↦ subst (Rel x) e (same x)
    | inr (y, e, q, rest) ↦ trans x y r (b x y e) (Chain-rel n p y r b rest)
  ]

  pub Grown-trans :
      (p q r : List (K × K)) → Grown dec Rel p q → Grown dec Rel q r → Grown dec Rel p r
  Grown-trans p q r g h = record {
    rooted = h.rooted;
    bonded = h.bonded;
    roots = λ n y s c. h.roots n y s (g.roots n y s c);
  }

  Grown-insert :
      (x : K) (p : List (K × K))
      → IsRooted dec p
      → HasLinks dec Rel p
      → lookup dec x p ≡ none
      → Grown dec Rel p (insert dec x x p)
  Grown-insert x p w b e = record {
    rooted = λ z t h. elim (insert_cases dec x z x t p h) [
      | inl (q, _) ↦ (z, root_self dec _ _ z (lookup-insert_self dec x z x p q ∙ ap some q))
      | inr (_, old) ↦
          let (r, c) = w z t old in
          (
            r,
            root_from_mono dec _ _ _ z r (omega (arith, links-insert_new dec x p e))
                (moved _ z r c),
          )
    ];
    bonded = λ z t h. elim (insert_cases dec x z x t p h) [
      | inl (q, q') ↦ subst (λ u. Rel u t) (sym q' ∙ q) (same t)
      | inr (_, old) ↦ b z t old
    ];
    roots = moved;
  }
    where
      kept : (y z : K) → lookup dec y p ≡ some z → lookup dec y (insert dec x x p) ≡ some z
      kept y z h = lookup-insert_ne dec x y x p (λ q. cc) ∙ h

      moved : (n : ℕ) (y s : K) → Chain dec p n y s → Chain dec (insert dec x x p) n y s
      moved n y s c = root_extend dec n p _ y s kept c

  pub Grown-fresh :
      (x : K) (p : List (K × K))
      → IsRooted dec p
      → HasLinks dec Rel p
      → Grown dec Rel p (set_default dec x x p)
  unfolding set_default
  Grown-fresh x p w b = elim (Option-cases (lookup dec x p)) [
    | inl e ↦ rw (e, set_default) (Grown-insert x p w b e)
    | inr (y, e) ↦ rw (e, set_default) (record { rooted = w; bonded = b; roots = λ n y s c. c })
  ]

  Grown-over :
      (k : ℕ) (p : List (K × K)) (x y root : K)
      → IsRooted dec p
      → HasLinks dec Rel p
      → lookup dec x p ≡ some y
      → y ≢ x
      → root ≢ x
      → Chain dec p k x root
      → Grown dec Rel p (insert dec x root p)
  Grown-over k p x y root w b e ne ne' c = record {
    rooted = λ z t h. elim (insert_cases dec x z root t p h) [
      | inl (q, _) ↦ again z y (subst (λ u. lookup dec u p ≡ some y) q e)
      | inr (_, old) ↦ again z t old
    ];
    bonded = λ z t h. elim (insert_cases dec x z root t p h) [
      | inl (q, q') ↦ subst (Rel z) q' (subst (λ u. Rel u root) q (Chain-rel k p x root b c))
      | inr (_, old) ↦ b z t old
    ];
    roots = moved;
  }
    where
      moved : (n : ℕ) (z s : K) → Chain dec p n z s → Chain dec (insert dec x root p) n z s
      moved n z s d = root_compressed dec n k p x root z s ne' c d

      again :
          (z t : K)
          → lookup dec z p ≡ some t
          → (r : K) × Chain dec (insert dec x root p) (suc (links dec (insert dec x root p))) z r
      again z t old =
          let (r, d) = w z t old in
          (
            r,
            root_from_mono dec _ _ _ z r (omega (arith, links-insert_over dec x y root p e ne ne'))
                (moved _ z r d),
          )

  compress_stop :
      (n : ℕ) (p : List (K × K)) (x root : K)
      → lookup dec x p ≡ some root
      → compress dec (suc n) root p x ≡ some p
  unfolding compress
  compress_stop n p x root e = ground arith

  compress_more :
      (n : ℕ) (p : List (K × K)) (x y root : K)
      → lookup dec x p ≡ some y
      → y ≢ root
      → compress dec (suc n) root p x ≡ compress dec n root (insert dec x root p) y
  unfolding compress
  compress_more n p x y root e ne = ground arith

  -- The compression ends, within the fuel of the walk before it.
  compress_total :
      (n : ℕ) (p : List (K × K)) (x root : K)
      → IsRooted dec p
      → HasLinks dec Rel p
      → Chain dec p n x root
      → (q : List (K × K)) × (compress dec n root p x ≡ some q) × Grown dec Rel p q
  compress_total zero p x root w b c = unfold root_from in cc
  compress_total (suc n) p x root w b c = elim (root_cases dec n p x root c) [
    | inl (self, e) ↦ (
      p,
      compress_stop n p x root (self ∙ ap some e),
      record { rooted = w; bonded = b; roots = λ n y s c. c },
    )
    | inr (y, e, ne, rest) ↦ elim (dec y root) [
      | yes q ↦ (
        p,
        compress_stop n p x root (e ∙ ap some q),
        record { rooted = w; bonded = b; roots = λ n y s c. c },
      )
      | no q ↦
          let apart : root ≢ x = λ t. ne (cc (root_fixed dec n p y root rest)) in
          let g = Grown-over (suc n) p x y root w b e ne apart c in
          let (p', done, h) =
            compress_total n (insert dec x root p) y root g.rooted g.bonded
              (g.roots n y root rest) in
          (p', compress_more n p x y root e q ∙ done, Grown-trans p (insert dec x root p) p' g h)
    ]
  ]

  pub has_fresh :
      (x : K) (p : List (K × K)) → (y : K) × (lookup dec x (set_default dec x x p) ≡ some y)
  unfolding set_default
  has_fresh x p = elim (Option-cases (lookup dec x p)) [
    | inl e ↦ (x, rw (e, set_default) (lookup-insert_self dec x x x p refl))
    | inr (y, e) ↦ (y, rw (e, set_default) e)
  ]

  -- `find` returns the root of its item, whatever it was given, and moves no root.
  pub find_total :
      (p : List (K × K)) (x : K)
      → IsRooted dec p
      → HasLinks dec Rel p
      → (r : K) × (q : List (K × K)) × (find dec p x ≡ some (r, q))
        × Grown dec Rel p q
        × Root dec q x r
  unfolding find
  find_total p x w b =
      let g = Grown-fresh x p w b in
      let q = set_default dec x x p in
      let (y, e) = has_fresh x p in
      let (r, c) = g.rooted x y e in
      let far =
        root_from_mono dec (suc (links dec q)) (suc (length q)) q x r
          (omega (arith, links-le dec q)) c in
      let (q', done, h) = compress_total (suc (length q)) q x r g.rooted g.bonded far in
      (
        r,
        q',
        rw (far, done),
        Grown-trans p q q' g h,
        (suc (length q), h.roots (suc (length q)) x r far),
      )
