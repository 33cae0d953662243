-- ===== src/Dedup/Verify/Jaccard.antt =====
-- `jaccard_similarity` of janasunani/pipeline/dedup.py, as an exact fraction.
use janasunani.Base.{
  ℕ, ◌+◌, ◌*◌, Bool, true, false, List, [], ◌∷◌, length, leb, if◌then◌else◌, ite, Text,
  text_discrete, not, filterb,
}

-- A quotient of two counts, or a threshold; the denominator is not zero.
pub record Ratio : Type 0 where
  pub num : ℕ
  pub den : ℕ

-- `r >= t`
unfoldable pub meets : Ratio → Ratio → Bool
meets t r = leb (t.num * r.den) (r.num * t.den)

-- `x in set`
unfoldable pub contains : List Text → Text → Bool
contains [] x = false
contains (y ∷ s) x = ite (text_discrete y x) true (contains s x)

-- `set(xs)`, as a list that holds each of its elements once.
unfoldable pub to_set : List Text → List Text
unfolding contains
to_set [] = []
to_set (x ∷ xs) = let rest = to_set xs in if contains rest x then rest else x ∷ rest

-- `len(a & b)` and `len(a | b)` of two sets.
unfoldable pub common : List Text → List Text → ℕ
unfolding contains
common a b = length (filterb (contains b) a)

unfoldable pub combined : List Text → List Text → ℕ
unfolding contains
combined a b = length (filterb (λ x. not (contains b x)) a) + length b

unfoldable pub jaccard_similarity : List Text → List Text → Ratio
unfolding to_set common combined
jaccard_similarity shingles_a shingles_b =
    let a = to_set shingles_a in
    let b = to_set shingles_b in
    if leb (length a + length b) 0
    then record { num = 0; den = 1 }
    else record { num = common a b; den = combined a b }
