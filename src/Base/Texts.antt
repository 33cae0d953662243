-- ===== src/Base/Texts.antt =====
-- Python's `str` as its list of code points: equality, order, and `strip` over the whitespace set.
use Prim.Native.Nat.{ℕ}
use Prim.Native.Char.{code}
use Prim.Native.String.{String}
use mathlib.Core.Path.{◌≡◌, refl}
use mathlib.Core.Bool.{Bool, true, false, ◌&&◌, ◌||◌}
use mathlib.Core.List.{List, [], ◌∷◌, reverse}
use native.Mathlib.Omega.{arith}
use native.Mathlib.Decide.{ℕ_discrete}
use janasunani.Base.Tests.{ltb, leb, ◌==◌, if◌then◌else◌}

abbrev pub Text : Type 0
Text = List ℕ

-- The code points of a literal.
abbrev pub codes : String → Text
codes String.[] = []
codes (String.◌∷◌ c s) = code c ∷ codes s

abbrev pub text_discrete : Discrete Text
text_discrete = hlevel ℕ_discrete

-- `a == b` on `str`.
unfoldable pub text_eq : Text → Text → Bool
text_eq [] [] = true
text_eq [] (y ∷ ys) = false
text_eq (x ∷ xs) [] = false
text_eq (x ∷ xs) (y ∷ ys) = x == y && text_eq xs ys

pub text_eq_eq : (s t : Text) → text_eq s t ≡ true → s ≡ t
unfolding text_eq
text_eq_eq [] [] h = refl
text_eq_eq [] (y ∷ ys) h = cc
text_eq_eq (x ∷ xs) [] h = cc
text_eq_eq (x ∷ xs) (y ∷ ys) h = ground (arith, text_eq_eq xs ys)

pub text_eq_refl : (s : Text) → text_eq s s ≡ true
unfolding text_eq
text_eq_refl [] = refl
text_eq_refl (x ∷ xs) = ground (arith, text_eq_refl xs)

-- `a < b` on `str`.
unfoldable pub text_less : Text → Text → Bool
text_less [] [] = false
text_less [] (y ∷ ys) = true
text_less (x ∷ xs) [] = false
text_less (x ∷ xs) (y ∷ ys) = if ltb x y then true else if ltb y x then false else text_less xs ys

-- A strict order, given by its test.
pub record IsOrder {A : Type 0} (less : A → A → Bool) : Type 0 where
  pub irrefl : (x : A) → less x x ≡ false
  pub asymm : (x y : A) → less x y ≡ true → less y x ≡ false
  pub cotrans : (x y z : A) → less x y ≡ false → less y z ≡ false → less x z ≡ false

text_less_irrefl : (x : Text) → text_less x x ≡ false
unfolding text_less
text_less_irrefl [] = refl
text_less_irrefl (x ∷ xs) = ground (arith, text_less_irrefl xs)

text_less_asymm : (x y : Text) → text_less x y ≡ true → text_less y x ≡ false
unfolding text_less
text_less_asymm [] [] h = cc
text_less_asymm [] (y ∷ ys) h = refl
text_less_asymm (x ∷ xs) [] h = cc
text_less_asymm (x ∷ xs) (y ∷ ys) h = ground (arith, text_less_asymm xs ys)

text_less_cotrans :
    (x y z : Text) → text_less x y ≡ false → text_less y z ≡ false → text_less x z ≡ false
unfolding text_less
text_less_cotrans [] [] z h k = k
text_less_cotrans [] (y ∷ ys) z h k = cc
text_less_cotrans (x ∷ xs) y [] h k = refl
text_less_cotrans (x ∷ xs) [] (z ∷ zs) h k = cc
text_less_cotrans (x ∷ xs) (y ∷ ys) (z ∷ zs) h k = ground (arith, text_less_cotrans xs ys zs)

pub text_less-IsOrder : IsOrder text_less
text_less-IsOrder = record {
  irrefl = text_less_irrefl;
  asymm = text_less_asymm;
  cotrans = text_less_cotrans;
}

-- `str.isspace`, which is also `\s` of `re`.
unfoldable pub is_space : ℕ → Bool
is_space c =
    (leb 9 c && leb c 13)
    || (leb 28 c && leb c 32)
    || c == 0x85
    || c == 0xa0
    || c == 0x1680
    || (leb 0x2000 c && leb c 0x200a)
    || c == 0x2028
    || c == 0x2029
    || c == 0x202f
    || c == 0x205f
    || c == 0x3000

unfoldable pub lstrip : Text → Text
lstrip [] = []
lstrip (c ∷ s) = elim (is_space c) [ true ↦ lstrip s | false ↦ c ∷ s ]

-- `str.strip`
unfoldable pub strip : Text → Text
unfolding lstrip
strip s = reverse (lstrip (reverse (lstrip s)))
