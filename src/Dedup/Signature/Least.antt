-- ===== src/Dedup/Signature/Least.antt =====
-- A MinHash signature depends on the set of shingles alone.
use janasunani.Base.{
  ℕ, ◌≡◌, ◌≤◌, ◌⊎◌, inl, inr, refl, sym, ap, subst, ◌∙◌, List, [], ◌∷◌, map, Text, Elem, ltb, ◌==◌,
  if◌then◌else◌, arith,
}
use janasunani.Dedup.Signature.{
  value_error, signature, minimum, permuted, of_hashes, minhash_signature,
}

abbrev lesser : ℕ → ℕ → ℕ
lesser x y = if ltb y x then y else x

lesser-cases : (x y : ℕ) → (lesser x y ≡ x) ⊎ (lesser x y ≡ y)
lesser-cases x y = ground arith

minimum-Elem : (x : ℕ) (ys : List ℕ) → Elem (minimum x ys) (x ∷ ys)
unfolding minimum
minimum-Elem x [] = inl refl
minimum-Elem x (y ∷ ys) = elim (minimum-Elem (lesser x y) ys) [
  | inr e ↦ inr (inr e)
  | inl e ↦ elim (lesser-cases x y) [
    | inl first ↦ inl (e ∙ first)
    | inr second ↦ inr (inl (e ∙ second))
  ]
]

minimum-le_first : (x : ℕ) (ys : List ℕ) → minimum x ys ≤ x
unfolding minimum
minimum-le_first x [] = omega arith
minimum-le_first x (y ∷ ys) = ground (arith, minimum-le_first (lesser x y) ys)

minimum-le_rest : (x z : ℕ) (ys : List ℕ) → Elem z ys → minimum x ys ≤ z
unfolding minimum
minimum-le_rest x z [] e = absurd e
minimum-le_rest x z (y ∷ ys) (inl e) = ground (arith, minimum-le_first (lesser x y) ys)
minimum-le_rest x z (y ∷ ys) (inr e) = minimum-le_rest (lesser x y) z ys e

minimum-le : (x z : ℕ) (ys : List ℕ) → Elem z (x ∷ ys) → minimum x ys ≤ z
minimum-le x z ys (inl e) = ground (arith, minimum-le_first x ys)
minimum-le x z ys (inr e) = minimum-le_rest x z ys e

-- Two lists with the same elements.
abbrev pub SameElems : {A : Type 0} → List A → List A → Type 0
SameElems {A} xs ys = ((a : A) → Elem a xs → Elem a ys) × ((a : A) → Elem a ys → Elem a xs)

minimum-SameElems :
    (x y : ℕ) (xs ys : List ℕ) → SameElems (x ∷ xs) (y ∷ ys) → minimum x xs ≡ minimum y ys
minimum-SameElems x y xs ys (into, back) =
    let below : minimum x xs ≤ minimum y ys =
      minimum-le x (minimum y ys) xs (back (minimum y ys) (minimum-Elem y ys)) in
    let above : minimum y ys ≤ minimum x xs =
      minimum-le y (minimum x xs) ys (into (minimum x xs) (minimum-Elem x xs)) in
    omega arith

Elem-map : {A B : Type 0} (f : A → B) (a : A) (xs : List A) → Elem a xs → Elem (f a) (map f xs)
Elem-map f a [] e = absurd e
Elem-map f a (x ∷ xs) (inl e) = inl (ap f e)
Elem-map f a (x ∷ xs) (inr e) = inr (Elem-map f a xs e)

map-Elem :
    {A B : Type 0} (f : A → B) (b : B) (xs : List A)
    → Elem b (map f xs)
    → (a : A) × Elem a xs × (b ≡ f a)
map-Elem f b [] e = absurd e
map-Elem f b (x ∷ xs) (inl e) = (x, inl refl, e)
map-Elem f b (x ∷ xs) (inr e) = let (a, h, p) = map-Elem f b xs e in (a, inr h, p)

mapped :
    {A B : Type 0} (f : A → B) (xs ys : List A)
    → ((a : A) → Elem a xs → Elem a ys)
    → (b : B) → Elem b (map f xs)
    → Elem b (map f ys)
mapped f xs ys h b e =
    let (a, within, p) = map-Elem f b xs e in
    subst (λ t. Elem t (map f ys)) (sym p) (Elem-map f a ys (h a within))

map-SameElems :
    {A B : Type 0} (f : A → B) (xs ys : List A) → SameElems xs ys → SameElems (map f xs) (map f ys)
map-SameElems f xs ys (into, back) = (mapped f xs ys into, mapped f ys xs back)

module _ (base_hash : Text → ℕ) (permutations : ℕ → List (ℕ × ℕ)) where
  least_all :
      (h k : ℕ) (hs ks : List ℕ) (ps : List (ℕ × ℕ))
      → SameElems (h ∷ hs) (k ∷ ks)
      → map (λ p. minimum (permuted p h) (map (permuted p) hs)) ps
        ≡ map (λ p. minimum (permuted p k) (map (permuted p) ks)) ps
  least_all h k hs ks [] same = refl
  least_all h k hs ks (p ∷ ps) same =
      let first : minimum (permuted p h) (map (permuted p) hs)
          ≡ minimum (permuted p k) (map (permuted p) ks) =
        minimum-SameElems (permuted p h) (permuted p k) (map (permuted p) hs) (map (permuted p) ks)
          (map-SameElems (permuted p) (h ∷ hs) (k ∷ ks) same) in
      λ i. first i ∷ least_all h k hs ks ps same i

  of_hashes-SameElems :
      (hs ks : List ℕ) (n : ℕ)
      → SameElems hs ks
      → of_hashes base_hash permutations hs n ≡ of_hashes base_hash permutations ks n
  unfolding of_hashes
  of_hashes-SameElems [] [] n same = refl
  of_hashes-SameElems [] (k ∷ ks) n same = absurd (same.1 k (inl refl))
  of_hashes-SameElems (h ∷ hs) [] n same = absurd (same.0 h (inl refl))
  of_hashes-SameElems (h ∷ hs) (k ∷ ks) n same =
      ap signature (least_all h k hs ks (permutations n) same)

  -- Two lists of shingles with the same elements, whatever their order and repetitions, have the
  -- same signature, or the same abstention or error.
  pub minhash_signature-SameElems :
      (shingles_a shingles_b : List Text) (num_hashes : ℕ)
      → SameElems shingles_a shingles_b
      → minhash_signature base_hash permutations shingles_a num_hashes
        ≡ minhash_signature base_hash permutations shingles_b num_hashes
  unfolding minhash_signature
  minhash_signature-SameElems shingles_a shingles_b num_hashes same =
      ap (λ s. if num_hashes == 0 then value_error else s)
        (of_hashes-SameElems (map base_hash shingles_a) (map base_hash shingles_b) num_hashes
          (map-SameElems base_hash shingles_a shingles_b same))
