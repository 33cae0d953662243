-- ===== src/Serving/Spam/Collapse/Shares.antt =====
-- What the counts of a `Counter` say of the list that it counted.
use janasunani.Base.{
  ℕ, suc, ◌+◌, ◌-◌, ◌*◌, ◌<◌, ◌≤◌, ◌≡◌, ◌↔◌, refl, Bool, true, none, some, List, [], ◌∷◌, Text,
  if◌then◌else◌, ltb, length, lookup, insert, lookup-insert, filterb, arith,
}
use janasunani.Serving.Spam.Collapse.{
  words, trigram_discrete, trigrams, count_of, tally, total, repeated, trigram_counts,
  repeated_trigram_share, is_repetition_collapsed_at, is_repetition_collapsed,
}

module _ {K : Type 0} (dec : Discrete K) where
  -- How often `k` stands in the list.
  abbrev pub occurrences : K → List K → ℕ
  occurrences k [] = 0
  occurrences k (x ∷ xs) =
      let rest = occurrences k xs in elim (dec x k) [ yes _ ↦ suc rest | no _ ↦ rest ]

  -- The places whose item stands elsewhere too.
  abbrev pub repeats : List K → ℕ
  repeats xs = length (filterb (λ x. ltb 1 (occurrences x xs)) xs)

  weight : (K → Bool) → List (K × ℕ) → ℕ
  weight p [] = 0
  weight p ((k, c) ∷ m) = let rest = weight p m in if p k then c + rest else rest

  Unique : List (K × ℕ) → Type 0
  Unique [] = Unit
  Unique ((k, c) ∷ m) = (lookup dec k m ≡ none) × Unique m

  insert-weight :
      (p : K → Bool) (x : K) (m : List (K × ℕ))
      → weight p (insert dec x (suc (count_of dec x m)) m) ≡ weight p m + (if p x then 1 else 0)
  unfolding weight insert count_of lookup
  insert-weight p x [] = ground arith
  insert-weight p x ((k, c) ∷ m) = ground (arith, insert-weight p x m)

  tally-weight :
      (p : K → Bool) (xs : List K) (m : List (K × ℕ))
      → weight p (tally dec xs m) ≡ weight p m + length (filterb p xs)
  unfolding tally
  tally-weight p [] m = omega arith
  tally-weight p (x ∷ xs) m =
      ground
        (arith, tally-weight p xs (insert dec x (suc (count_of dec x m)) m), insert-weight p x m)

  insert-Unique : (x : K) (v : ℕ) (m : List (K × ℕ)) → Unique m → Unique (insert dec x v m)
  unfolding Unique insert lookup
  insert-Unique x v [] u = (refl, tt)
  insert-Unique x v ((k, c) ∷ m) (h, u) = elim (dec k x) [
    | yes e ↦ ground (arith, h, u)
    | no ne ↦ ground (arith, lookup-insert dec x k v m, insert-Unique x v m u)
  ]

  tally-Unique : (xs : List K) (m : List (K × ℕ)) → Unique m → Unique (tally dec xs m)
  unfolding tally
  tally-Unique [] m u = u
  tally-Unique (x ∷ xs) m u = tally-Unique xs _ (insert-Unique x _ m u)

  tally-count :
      (k : K) (xs : List K) (m : List (K × ℕ))
      → count_of dec k (tally dec xs m) ≡ count_of dec k m + occurrences k xs
  unfolding tally count_of
  tally-count k [] m = omega arith
  tally-count k (x ∷ xs) m = elim (dec x k) [
    | yes e ↦ ground (
      arith,
      tally-count k xs (insert dec x (suc (count_of dec x m)) m),
      lookup-insert dec x k (suc (count_of dec x m)) m,
    )
    | no ne ↦ ground (
      arith,
      tally-count k xs (insert dec x (suc (count_of dec x m)) m),
      lookup-insert dec x k (suc (count_of dec x m)) m,
    )
  ]

  repeated-weight :
      (p : K → Bool) (m : List (K × ℕ))
      → Unique m
      → ((k : K) (c : ℕ) → lookup dec k m ≡ some c → p k ≡ ltb 1 c)
      → repeated m ≡ weight p m
  unfolding repeated weight Unique lookup
  repeated-weight p [] u h = refl
  repeated-weight p ((k, c) ∷ m) (a, u) h =
      let rest = repeated-weight p m u (λ j d e.
        h j d (elim (dec k j) [ yes e' ↦ absurd (ground arith) | no ne ↦ ground arith ])) in
      let here : p k ≡ ltb 1 c = h k c (ground arith) in rw (here, rest) refl

  all-weight : (m : List (K × ℕ)) → weight (λ _. true) m ≡ total m
  unfolding weight total
  all-weight [] = refl
  all-weight ((k, c) ∷ m) = omega (arith, all-weight m)

  all-length : (xs : List K) → length (filterb (λ _. true) xs) ≡ length xs
  all-length [] = refl
  all-length (x ∷ xs) = omega (arith, all-length xs)

  weight_none : (p : K → Bool) → weight p [] ≡ 0
  unfolding weight
  weight_none p = refl

  lookup-tally :
      (xs : List K) (k : K) (c : ℕ)
      → lookup dec k (tally dec xs []) ≡ some c
      → ltb 1 (occurrences k xs) ≡ ltb 1 c
  unfolding count_of lookup
  lookup-tally xs k c h = ground (arith, tally-count k xs [])

  -- Over any list, the total of the counts is its length, and the counts above one add up to the
  -- places whose item stands elsewhere too.
  pub tally_lem :
      (xs : List K)
      → (total (tally dec xs []) ≡ length xs) × (repeated (tally dec xs []) ≡ repeats xs)
  unfolding Unique
  tally_lem xs =
      let p : K → Bool = λ x. ltb 1 (occurrences x xs) in
      (
        omega (
          arith,
          all-weight (tally dec xs []),
          tally-weight (λ _. true) xs [],
          all-length xs,
          weight_none (λ _. true),
        ),
        omega (
          arith,
          repeated-weight p (tally dec xs []) (tally-Unique xs [] tt) (lookup-tally xs),
          tally-weight p xs [],
          weight_none p,
        ),
      )

length-trigrams : (ws : List Text) → length (trigrams ws) ≡ length ws - 2
unfolding trigrams
length-trigrams [] = omega arith
length-trigrams (a ∷ []) = omega arith
length-trigrams (a ∷ b ∷ []) = omega arith
length-trigrams (a ∷ b ∷ c ∷ ws) = omega (arith, length-trigrams (b ∷ c ∷ ws))

-- A text counts as collapsed exactly when it has at least 20 words and more than half of the
-- places of its trigrams, two fewer than its words, hold a trigram that also stands at another
-- place.
pub is_repetition_collapsed_lem :
    (text : Text)
    → (is_repetition_collapsed text ≡ true) ↔ (
        (20 ≤ length (words text))
        × (length (words text) - 2 < 2 * repeats trigram_discrete (trigrams (words text))))
unfolding is_repetition_collapsed is_repetition_collapsed_at repeated_trigram_share trigram_counts
is_repetition_collapsed_lem text =
    let (n, r) = tally_lem trigram_discrete (trigrams (words text)) in
    rw (n, r, length-trigrams (words text)) (ground arith)
