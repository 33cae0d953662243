-- ===== src/Dedup/Signature/Sliced.antt =====
-- The bands of a signature cover it.
use janasunani.Base.{
  ℕ, zero, suc, ◌*◌, ◌/◌, ◌%◌, ◌≡◌, ◌≢◌, ◌⊎◌, ◌<◌, refl, ap, ◌∙◌, Option, none, some, List, [], ◌∷◌,
  ◌++◌, map, All, length, take, drop, length-take, length-drop, ◌==◌, arith, Bool-cases, inl, inr,
}
use janasunani.Dedup.Signature.{Signature, value_error, abstained, signature, slices, lsh_bands}

abbrev pub flatten : List (List ℕ) → List ℕ
flatten [] = []
flatten (part ∷ parts) = part ++ flatten parts

-- Parts of equal length that make up the values.
pub record IsSliced (values : List ℕ) (n : ℕ) (parts : List (List ℕ)) : Type 0 where
  pub whole : flatten parts ≡ values
  pub equal : All (λ part. length part ≡ length values / n) parts
  pub number : length parts ≡ n

-- A signature has bands where it is not empty and the bands divide it.
abbrev pub IsBanded : (List ℕ → ℕ) → Signature → ℕ → Option (List ℕ) → Type 0
IsBanded digest (signature values) n (some bands) =
    (parts : List (List ℕ)) × IsSliced values n parts
    × (bands ≡ map digest parts)
    × (0 < length values)
IsBanded digest (signature values) n none = (length values * n ≡ 0) ⊎ (length values % n ≢ 0)
IsBanded digest value_error n r = r ≡ none
IsBanded digest abstained n r = r ≡ none

take-drop : (n : ℕ) (values : List ℕ) → take n values ++ drop n values ≡ values
take-drop zero values = refl
take-drop (suc n) [] = refl
take-drop (suc n) (v ∷ values) = ap (λ t. v ∷ t) (take-drop n values)

slices-whole :
    (n rows : ℕ) (values : List ℕ)
    → length values ≡ n * rows
    → flatten (slices n rows values) ≡ values
unfolding slices
slices-whole zero rows [] h = refl
slices-whole zero rows (v ∷ values) h = absurd (omega arith)
slices-whole (suc n) rows values h =
    ap (λ t. take rows values ++ t)
      (slices-whole n rows (drop rows values) (grind (arith, length-drop rows values)))
    ∙ take-drop rows values

slices-equal :
    (n rows : ℕ) (values : List ℕ)
    → length values ≡ n * rows
    → All (λ part. length part ≡ rows) (slices n rows values)
unfolding slices
slices-equal zero rows values h = tt
slices-equal (suc n) rows values h = (
  grind (arith, length-take rows values),
  slices-equal n rows (drop rows values) (grind (arith, length-drop rows values)),
)

length-slices : (n rows : ℕ) (values : List ℕ) → length (slices n rows values) ≡ n
unfolding slices
length-slices zero rows values = refl
length-slices (suc n) rows values = ap suc (length-slices n rows (drop rows values))

module _ (digest : List ℕ → ℕ) where
  sliced :
      (values : List ℕ) (n : ℕ)
      → length values % n ≡ 0
      → 0 < n
      → IsSliced values n (slices n (length values / n) values)
  sliced values n divides positive =
      let total : length values ≡ n * (length values / n) = grind arith in
      record {
        whole = slices-whole n (length values / n) values total;
        equal = slices-equal n (length values / n) values total;
        number = length-slices n (length values / n) values;
      }

  -- The bands of a signature are the digests of as many slices as bands are asked for, of equal
  -- length, which joined are the signature; there are none exactly where the signature is an
  -- abstention or an error, is empty, or has a length that the positive number of bands does not
  -- divide, or the number is 0.
  pub lsh_bands-IsBanded : (s : Signature) (n : ℕ) → IsBanded digest s n (lsh_bands digest s n)
  unfolding lsh_bands
  lsh_bands-IsBanded value_error n = refl
  lsh_bands-IsBanded abstained n = refl
  lsh_bands-IsBanded (signature values) n = elim (Bool-cases (length values == 0)) [
    | inl empty ↦ rw (empty, lsh_bands) (inl (ground arith))
    | inr some' ↦
        rw (some', lsh_bands)
          (elim (Bool-cases (n == 0)) [
            | inl zero' ↦ rw zero' (inl (ground arith))
            | inr positive ↦ rw positive (elim (Bool-cases (length values % n == 0)) [
              | inl divides ↦ rw divides (
                slices n (length values / n) values,
                sliced values n (ground arith) (ground arith),
                refl,
                ground arith,
              )
              | inr rest ↦ rw rest (inr (ground arith))
            ])
          ])
  ]
