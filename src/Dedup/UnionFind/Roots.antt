-- ===== src/Dedup/UnionFind/Roots.antt =====
-- Following parents to the root: the result does not depend on the fuel, and how `insert` moves it.
use janasunani.Base.{
  ℕ, zero, suc, ◌≤◌, ◌≡◌, ◌≢◌, sym, ap, subst, ite, ◌∙◌, ◌⊎◌, inl, inr, some, List, arith, lookup,
  insert, lookup-insert, if_pos, if_neg, Option-cases,
}
use janasunani.Dedup.UnionFind.{root_from}

module _ {K : Type 0} (dec : Discrete K) where
  -- The root of `x` is `r`, after following at most `n` links.
  abbrev pub Chain : List (K × K) → ℕ → K → K → Type 0
  Chain p n x r = root_from dec n p x ≡ some r

  abbrev pub Root : List (K × K) → K → K → Type 0
  Root p x r = (n : ℕ) × Chain p n x r

  -- Two items have one root.
  abbrev pub Joined : List (K × K) → K → K → Type 0
  Joined p x y = (r : K) × Root p x r × Root p y r

  pub root_self : (n : ℕ) (p : List (K × K)) (x : K) → lookup dec x p ≡ some x → Chain p (suc n) x x
  unfolding root_from
  root_self n p x h = ground arith

  pub root_parent :
      (n : ℕ) (p : List (K × K)) (x y : K)
      → lookup dec x p ≡ some y
      → y ≢ x
      → root_from dec (suc n) p x ≡ root_from dec n p y
  unfolding root_from
  root_parent n p x y h ne = ground arith

  pub root_cases :
      (n : ℕ) (p : List (K × K)) (x r : K)
      → Chain p (suc n) x r
      → ((lookup dec x p ≡ some x) × (x ≡ r))
        ⊎ ((y : K) × (lookup dec x p ≡ some y) × (y ≢ x) × Chain p n y r)
  unfolding root_from
  root_cases n p x r h = elim (Option-cases (lookup dec x p)) [
    | inl e ↦ ground arith
    | inr (y, e) ↦ elim (dec y x) [
      | yes q ↦ inl (ground arith)
      | no q ↦ inr (y, e, q, ground arith)
    ]
  ]

  -- More fuel changes nothing.
  pub root_from_mono :
      (n m : ℕ) (p : List (K × K)) (x r : K) → n ≤ m → Chain p n x r → Chain p m x r
  root_from_mono zero m p x r le h = unfold root_from in cc
  root_from_mono (suc n) zero p x r le h = absurd (omega arith)
  root_from_mono (suc n) (suc m) p x r le h = elim (root_cases n p x r h) [
    | inl (self, e) ↦ root_self m p x self ∙ cc
    | inr (y, e, q, rest) ↦ root_parent m p x y e q ∙ root_from_mono n m p y r (omega arith) rest
  ]

  -- An item has one root.
  pub root_unique : (n m : ℕ) (p : List (K × K)) (x r s : K) → Chain p n x r → Chain p m x s → r ≡ s
  root_unique zero m p x r s h k = unfold root_from in cc
  root_unique (suc n) zero p x r s h k = unfold root_from in cc
  root_unique (suc n) (suc m) p x r s h k = elim (root_cases n p x r h) [
    | inl (self, e) ↦ cc (root_self m p x self)
    | inr (y, e, q, rest) ↦ root_unique n m p y r s rest (sym (root_parent m p x y e q) ∙ k)
  ]

  pub root_fixed : (n : ℕ) (p : List (K × K)) (x r : K) → Chain p n x r → lookup dec r p ≡ some r
  root_fixed zero p x r h = unfold root_from in cc
  root_fixed (suc n) p x r h = elim (root_cases n p x r h) [
    | inl (self, e) ↦ subst (λ z. lookup dec z p ≡ some z) e self
    | inr (y, e, q, rest) ↦ root_fixed n p y r rest
  ]

  -- What stands in a larger dict keeps its root.
  pub root_extend :
      (n : ℕ) (p p' : List (K × K)) (x r : K)
      → ((y z : K) → lookup dec y p ≡ some z → lookup dec y p' ≡ some z)
      → Chain p n x r
      → Chain p' n x r
  root_extend zero p p' x r ext h = unfold root_from in cc
  root_extend (suc n) p p' x r ext h = elim (root_cases n p x r h) [
    | inl (self, e) ↦ root_self n p' x (ext x x self) ∙ cc
    | inr (y, e, q, rest) ↦ root_parent n p' x y (ext x y e) q ∙ root_extend n p p' y r ext rest
  ]

  pub lookup-insert_ne :
      (x y r : K) (p : List (K × K)) → x ≢ y → lookup dec y (insert dec x r p) ≡ lookup dec y p
  lookup-insert_ne x y r p ne = ground (arith, lookup-insert dec x y r p)

  pub lookup-insert_self :
      (x y r : K) (p : List (K × K)) → x ≡ y → lookup dec y (insert dec x r p) ≡ some r
  lookup-insert_self x y r p e = ground (arith, lookup-insert dec x y r p)

  -- Fuel that led somewhere is enough at a root.
  root_here :
      (n : ℕ) (p p' : List (K × K)) (x s r : K)
      → Chain p n x s
      → lookup dec r p' ≡ some r
      → Chain p' n r r
  root_here zero p p' x s r h k = unfold root_from in cc
  root_here (suc n) p p' x s r h k = root_self n p' r k

  -- One write of the compression moves no root.
  pub root_compressed :
      (n k : ℕ) (p : List (K × K)) (x r y s : K)
      → r ≢ x
      → Chain p k x r
      → Chain p n y s
      → Chain (insert dec x r p) n y s
  root_compressed zero k p x r y s ne hx h = unfold root_from in cc
  root_compressed (suc n) k p x r y s ne hx h = elim (root_cases n p y s h) [
    | inl (self, e) ↦
        root_self n _ y (
          lookup-insert_ne x y r p (λ q. ne (root_unique k 1 p x r x hx (root_self 0 p x (cc))))
          ∙ self)
        ∙ cc
    | inr (z, e, q, rest) ↦ elim (dec x y) [
      | yes here ↦
          root_parent n _ y r (lookup-insert_self x y r p here) (λ t. ne (t ∙ sym here))
          ∙ root_here n p _ z s r rest
              (lookup-insert_ne x r r p (λ t. ne (sym t)) ∙ root_fixed k p x r hx)
          ∙ ap some (root_unique k (suc n) p y r s (subst (λ t. Chain p k t r) here hx) h)
      | no away ↦
          root_parent n _ y z (lookup-insert_ne x y r p away ∙ e) q
          ∙ root_compressed n k p x r z s ne hx rest
    ]
  ]

  -- A root `a` goes under another root `b`: what had the root `a` now has the root `b`.
  pub root_linked :
      (n : ℕ) (p : List (K × K)) (a b x s : K)
      → lookup dec a p ≡ some a
      → lookup dec b p ≡ some b
      → b ≢ a
      → Chain p n x s
      → Chain (insert dec a b p) (suc n) x (ite (dec s a) b s)
  root_linked zero p a b x s ha hb ne h = unfold root_from in cc
  root_linked (suc n) p a b x s ha hb ne h = elim (root_cases n p x s h) [
    | inl (self, e) ↦ elim (dec x a) [
      | yes here ↦
          root_parent (suc n) _ x b (lookup-insert_self a x b p (sym here)) (λ t. ne (t ∙ here))
          ∙ root_self n _ b (lookup-insert_ne a b b p (λ t. ne (sym t)) ∙ hb)
          ∙ ap some (sym (if_pos (dec s a) (sym e ∙ here) b s))
      | no away ↦
          root_self (suc n) _ x (lookup-insert_ne a x b p (λ t. away (sym t)) ∙ self)
          ∙ ap some (e ∙ sym (if_neg (dec s a) (λ t. away (e ∙ t)) b s))
    ]
    | inr (y, e, q, rest) ↦
        root_parent (suc n) _ x y (lookup-insert_ne a x b p (λ t. q (cc)) ∙ e) q
        ∙ root_linked n p a b y s ha hb ne rest
  ]

  -- What a lookup after a write has found.
  pub insert_cases :
      (x z r t : K) (p : List (K × K))
      → lookup dec z (insert dec x r p) ≡ some t
      → ((x ≡ z) × (r ≡ t)) ⊎ ((x ≢ z) × (lookup dec z p ≡ some t))
  insert_cases x z r t p h = elim (dec x z) [
    | yes e ↦ inl (e, ground (arith, lookup-insert_self x z r p e))
    | no ne ↦ inr (ne, sym (lookup-insert_ne x z r p ne) ∙ h)
  ]
