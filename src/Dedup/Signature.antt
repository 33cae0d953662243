-- ===== src/Dedup/Signature.antt =====
-- The text path of janasunani/pipeline/dedup.py: shingles, MinHash signatures and their bands.
pub mod Least
pub mod Sliced
pub mod Tests
use janasunani.Base.{
  ℕ, zero, suc, ◌+◌, ◌-◌, ◌*◌, ◌/◌, ◌%◌, ◌^◌, Bool, true, false, not, ◌&&◌, ◌||◌, Option, none,
  some, List, [], ◌∷◌, ◌++◌, map, Text, leb, ltb, ◌==◌, if◌then◌else◌, length, take, drop, min,
}
use janasunani.Dedup.Verify.Jaccard.{to_set}

-- `{text[i : i + k] for i in range(n)}` before its duplicates go.
unfoldable pub windows : ℕ → ℕ → Text → List Text
windows zero k text = []
windows (suc n) k text = take k text ∷ windows n k (drop 1 text)

-- The stages of Unicode that `shingles` calls: `strip_placeholders`, NFC and `str.lower`.
unfoldable pub shingles : (Text → Text) → Text → ℕ → List Text
unfolding windows
shingles normalize text k =
    let normalized = normalize text in
    if ltb (length normalized) k
    then []
    else to_set (windows (length normalized - k + 1) k normalized)

abbrev pub mersenne_prime : ℕ
mersenne_prime = 2 ^ 61 - 1

-- The signature, `None`, or a `ValueError`.
pub data Signature : Type 0 where
  value_error : Signature
  abstained : Signature
  signature : List ℕ → Signature

-- `min(...)` of a list with a first element.
unfoldable pub minimum : ℕ → List ℕ → ℕ
minimum x [] = x
minimum x (y ∷ ys) = minimum (if ltb y x then y else x) ys

-- `(a * h + b) % _MERSENNE_PRIME`
unfoldable pub permuted : ℕ × ℕ → ℕ → ℕ
permuted (a, b) h = (a * h + b) % mersenne_prime

-- The base hash of BLAKE2b, and the coefficients that the seeded generator draws.
module _ (base_hash : Text → ℕ) (permutations : ℕ → List (ℕ × ℕ)) where
  -- The signature of the base hashes of a set.
  unfoldable pub of_hashes : List ℕ → ℕ → Signature
  unfolding minimum permuted
  of_hashes [] num_hashes = abstained
  of_hashes (h ∷ hs) num_hashes =
      signature (map (λ p. minimum (permuted p h) (map (permuted p) hs)) (permutations num_hashes))

  unfoldable pub minhash_signature : List Text → ℕ → Signature
  unfolding of_hashes
  minhash_signature shingle_set num_hashes =
      if num_hashes == 0 then value_error else of_hashes (map base_hash shingle_set) num_hashes

-- The slices of a signature, `n` of them with `rows` numbers each.
unfoldable pub slices : ℕ → ℕ → List ℕ → List (List ℕ)
slices zero rows values = []
slices (suc n) rows values = take rows values ∷ slices n rows (drop rows values)

-- `none` stands for a `ValueError`; `digest` hashes the text of a slice.
unfoldable pub lsh_bands : (List ℕ → ℕ) → Signature → ℕ → Option (List ℕ)
unfolding slices
lsh_bands digest value_error num_bands = none
lsh_bands digest abstained num_bands = none
lsh_bands digest (signature values) num_bands =
    if length values == 0
    then none
    else if num_bands == 0 || not (length values % num_bands == 0)
    then none
    else some (map digest (slices num_bands (length values / num_bands) values))
