-- ===== src/Dedup/Signature/Tests.antt =====
-- Signatures and bands of concrete sets.
use janasunani.Base.{ℕ, ◌≡◌, List, [], ◌∷◌, Text, codes, inl, inr, length, Elem}
use janasunani.Dedup.Signature.{signature, minhash_signature, lsh_bands}
use janasunani.Dedup.Signature.Least.{SameElems, minhash_signature-SameElems}
use janasunani.Dedup.Signature.Sliced.{IsBanded, lsh_bands-IsBanded}

abbrev ab : List Text
ab = codes "a" ∷ codes "b" ∷ []

abbrev ba : List Text
ba = codes "b" ∷ codes "a" ∷ []

swapped : SameElems ab ba
swapped = (to, back)
  where
    to : (a : Text) → Elem a ab → Elem a ba
    to a (inl e) = inr (inl e)
    to a (inr (inl e)) = inl e
    to a (inr (inr e)) = absurd e

    back : (a : Text) → Elem a ba → Elem a ab
    back a (inl e) = inr (inl e)
    back a (inr (inl e)) = inl e
    back a (inr (inr e)) = absurd e

abbrev two_permutations : ℕ → List (ℕ × ℕ)
two_permutations n = (1, 0) ∷ (3, 5) ∷ []

minhash_signature-SameElems_example :
    minhash_signature (length {A = ℕ}) two_permutations ab 2
    ≡ minhash_signature (length {A = ℕ}) two_permutations ba 2
minhash_signature-SameElems_example =
    minhash_signature-SameElems length two_permutations ab ba 2 swapped

lsh_bands-IsBanded_example :
    IsBanded length
      (signature (1 ∷ 2 ∷ 3 ∷ 4 ∷ []))
      2
      (lsh_bands length (signature (1 ∷ 2 ∷ 3 ∷ 4 ∷ [])) 2)
lsh_bands-IsBanded_example = lsh_bands-IsBanded length (signature (1 ∷ 2 ∷ 3 ∷ 4 ∷ [])) 2
