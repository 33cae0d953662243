-- ===== src/Pii/Ensemble/Keys.antt =====
-- Keys of spans in lists, under sorting, and in the counter.
use janasunani.Base.{
  ℕ, suc, ◌≡◌, refl, sym, ap, subst, ◌∙◌, Bool, true, false, ◌||◌, List, [], ◌∷◌, ◌++◌,
  if◌then◌else◌, text_eq_eq, text_eq_refl, arith, Bool-cases, inl, inr,
}
use janasunani.Pii.Ensemble.{Key, key_eq, mem, insert_by, sort_by, count, bump}

pub key_eq_eq : (a b : Key) → key_eq a b ≡ true → a ≡ b
key_eq_eq a b h =
    let entities : a.entity ≡ b.entity = text_eq_eq a.entity b.entity (ground (arith, h)) in
    let starts : a.start ≡ b.start = ground (arith, h) in
    let ends : a.end ≡ b.end = ground (arith, h) in
    λ i. record { start = starts i; end = ends i; entity = entities i }

key_eq_refl : (a : Key) → key_eq a a ≡ true
key_eq_refl a = ground (arith, text_eq_refl a.entity)

-- Whether a key is in a list of what has a key.
abbrev pub among : {A : Type 0} → (A → Key) → Key → List A → Bool
among f key [] = false
among f key (x ∷ xs) = key_eq (f x) key || among f key xs

among-insert_by :
    {A : Type 0} (f : A → Key) (before : A → A → Bool) (key : Key) (x : A) (xs : List A)
    → among f key (insert_by before x xs) ≡ (key_eq (f x) key || among f key xs)
unfolding insert_by
among-insert_by f before key x [] = refl
among-insert_by f before key x (y ∷ ys) = elim (Bool-cases (before y x)) [
  | inl y' ↦ rw (y', insert_by) (ground (arith, among-insert_by f before key x ys))
  | inr n' ↦ rw (n', insert_by) refl
]

pub among-sort_by :
    {A : Type 0} (f : A → Key) (before : A → A → Bool) (key : Key) (xs : List A)
    → among f key (sort_by before xs) ≡ among f key xs
unfolding sort_by
among-sort_by f before key [] = refl
among-sort_by f before key (x ∷ xs) =
    among-insert_by f before key x (sort_by before xs)
    ∙ ap (λ b. key_eq (f x) key || b) (among-sort_by f before key xs)

pub mem-among : (key : Key) (keys : List Key) → mem key keys ≡ among (λ k. k) key keys
unfolding mem
mem-among key [] = refl
mem-among key (k ∷ keys) = ap (λ b. key_eq k key || b) (mem-among key keys)

pub mem-append :
    (key : Key) (ks : List Key) (k : Key) → mem key (ks ++ (k ∷ [])) ≡ (mem key ks || key_eq k key)
unfolding mem
mem-append key [] k = ground arith
mem-append key (x ∷ ks) k = ground (arith, mem-append key ks k)

-- What is another key than `a` is no key that `a` is.
key_eq_apart : (a b c : Key) → key_eq a b ≡ false → key_eq a c ≡ true → key_eq b c ≡ false
key_eq_apart a b c other same = elim (Bool-cases (key_eq b c)) [
  | inl h ↦
      let equal : a ≡ b = key_eq_eq a c same ∙ sym (key_eq_eq b c h) in
      absurd (ground (arith, other, subst (λ k. key_eq a k ≡ true) equal (key_eq_refl a)))
  | inr h ↦ h
]

pub count-bump :
    (key k : Key) (c : List (Key × ℕ))
    → count key (bump k c) ≡ (if key_eq k key then suc (count key c) else count key c)
unfolding count bump
count-bump key k [] = ground arith
count-bump key k ((k', n) ∷ c) = elim (Bool-cases (key_eq k' k)) [
  | inl same ↦ rw (same, bump, count) (rw (key_eq_eq k' k same) (ground arith))
  | inr other ↦
      rw (other, bump, count) (ground (arith, count-bump key k c, key_eq_apart k' k key other))
]

pub same_mem : (k key : Key) (keys : List Key) → key_eq k key ≡ true → mem k keys ≡ mem key keys
same_mem k key keys h = ap (λ x. mem x keys) (key_eq_eq k key h)
