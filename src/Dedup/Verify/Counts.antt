-- ===== src/Dedup/Verify/Counts.antt =====
-- How many pairs the loops of a bucket score.
use janasunani.Base.{◌+◌, ◌*◌, ◌≡◌, List, [], ◌∷◌, arith, length, map, length-append}
use janasunani.Dedup.Verify.{combinations}
use janasunani.Dedup.Verify.States.{cross}

pub length-map : {A B : Type 0} (f : A → B) (xs : List A) → length (map f xs) ≡ length xs
length-map f [] = omega arith
length-map f (x ∷ xs) = omega (arith, length-map f xs)

-- n choose 2, without the division.
pub length-combinations :
    {K : Type 0} (xs : List K) → 2 * length (combinations xs) + length xs ≡ length xs * length xs
unfolding combinations
length-combinations [] = omega arith
length-combinations {K} (x ∷ xs) = omega (
  arith,
  length-combinations xs,
  length-append (map (λ y. (x, y)) xs) (combinations xs),
  length-map {B = K × K} (λ y. (x, y)) xs,
)

pub length-cross :
    {K : Type 0} (anchors members : List K)
    → length (cross anchors members) ≡ length anchors * length members
length-cross anchors [] = omega arith
length-cross {K} anchors (m ∷ members) = omega (
  arith,
  length-cross anchors members,
  length-append (map (λ a. (a, m)) anchors) (cross anchors members),
  length-map {B = K × K} (λ a. (a, m)) anchors,
)
