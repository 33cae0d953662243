-- ===== src/Dedup/Identity/Phone.antt =====
-- The forms in which a number is written lead to one canonical form.
use janasunani.Base.{
  ℕ, ◌≡◌, ◌≤◌, ◌↔◌, ◌⊎◌, inl, inr, refl, sym, ap, subst, ◌∙◌, true, not, Option, none, some, [],
  ◌∷◌, ◌++◌, map, Text, length, strip, lstrip, is_space, text_eq, if◌then◌else◌, arith, Bool-cases,
}
use mathlib.Core.List.{reverse, reverse-append, reverse-reverse}
use janasunani.Dedup.Identity.{
  to_ascii, is_separator, condense, all_digits, without_plus, is_number, lstrip_plus, subscriber,
  canonical_phone_digits,
}

-- The characters of a number without separators, its digits in ASCII, and without a plus sign.
abbrev pub written : Text → Text
written value = without_plus (condense (map to_ascii value))

-- Ten digits, written alone, after a trunk prefix, or after the country code.
pub record IsNumberOf (digits : Text) (text : Text) : Type 0 where
  pub ten : length digits ≡ 10
  pub numeric : all_digits digits ≡ true
  pub form : (text ≡ digits) ⊎ ((text ≡ b'0' ∷ digits) ⊎ (text ≡ b'9' ∷ b'1' ∷ digits))

subscriber-IsNumberOf :
    (text digits : Text)
    → all_digits text ≡ true
    → subscriber text ≡ some digits
    → IsNumberOf digits text
unfolding subscriber all_digits text_eq
subscriber-IsNumberOf [] digits h e = absurd (ground arith)
subscriber-IsNumberOf (x ∷ []) digits h e = absurd (ground arith)
subscriber-IsNumberOf (x ∷ y ∷ text) digits h e = ground arith

IsNumberOf-subscriber :
    (text digits : Text)
    → IsNumberOf digits text
    → (all_digits text ≡ true)
      × (subscriber text ≡ some digits)
      × (10 ≤ length text)
      × (length text ≤ 12)
unfolding subscriber all_digits text_eq
IsNumberOf-subscriber text digits h = ground arith

space-is_separator : (c : ℕ) → is_space c ≡ true → is_separator (to_ascii c) ≡ true
unfolding is_space
space-is_separator c h = ground arith

-- The characters that are read, in ASCII.
kept : Text → Text
unfolding condense
kept text = condense (map to_ascii text)

kept-lstrip : (text : Text) → kept (lstrip text) ≡ kept text
unfolding kept lstrip
kept-lstrip [] = refl
kept-lstrip (c ∷ text) = elim (Bool-cases (is_space c)) [
  | inl space ↦ rw (space, lstrip) (ground (arith, space-is_separator c space, kept-lstrip text))
  | inr other ↦ rw (other, lstrip) refl
]

kept-append : (s t : Text) → kept (s ++ t) ≡ kept s ++ kept t
unfolding kept
kept-append [] t = refl
kept-append (c ∷ s) t = ground (arith, kept-append s t)

kept-one : (c : ℕ) → reverse (kept (c ∷ [])) ≡ kept (c ∷ [])
unfolding kept
kept-one c = elim (Bool-cases (is_separator (to_ascii c))) [
  | inl dropped ↦ rw dropped refl
  | inr held ↦ rw held refl
]

kept-reverse : (text : Text) → kept (reverse text) ≡ reverse (kept text)
unfolding kept
kept-reverse [] = refl
kept-reverse (c ∷ text) =
    ap kept (reverse-append (c ∷ []) text)
    ∙ kept-append (reverse text) (c ∷ [])
    ∙ ap (λ t. t ++ kept (c ∷ [])) (kept-reverse text)
    ∙ ap (λ t. reverse (kept text) ++ t) (sym (kept-one c))
    ∙ sym (reverse-append (kept (c ∷ [])) (kept text))
    ∙ ap reverse (sym (kept-append (c ∷ []) text))

kept-strip : (text : Text) → kept (strip text) ≡ kept text
unfolding strip
kept-strip text =
    kept-reverse (lstrip (reverse (lstrip text)))
    ∙ ap reverse (kept-lstrip (reverse (lstrip text)))
    ∙ ap reverse (kept-reverse (lstrip text))
    ∙ reverse-reverse (kept (lstrip text))
    ∙ kept-lstrip text

lstrip_plus-number : (text : Text) → is_number text ≡ true → lstrip_plus text ≡ without_plus text
unfolding is_number lstrip_plus all_digits
lstrip_plus-number [] h = refl
lstrip_plus-number (c ∷ []) h = absurd (ground arith)
lstrip_plus-number (c ∷ d ∷ text) h = ground arith

-- The number that a text without separators stands for.
abbrev number_of : Text → Option Text
number_of text = if not (is_number text) then none else subscriber (lstrip_plus text)

number_of_plain :
    (text : Text) → is_number text ≡ true → number_of text ≡ subscriber (without_plus text)
number_of_plain text h = rw (h, lstrip_plus-number text h) refl

number_of-IsNumberOf :
    (text digits : Text) → number_of text ≡ some digits → IsNumberOf digits (without_plus text)
unfolding is_number
number_of-IsNumberOf text digits e = elim (Bool-cases (is_number text)) [
  | inl yes' ↦
      subscriber-IsNumberOf (without_plus text) digits (ground arith)
        (sym (number_of_plain text yes') ∙ e)
  | inr no' ↦ absurd (ground arith)
]

IsNumberOf-number_of :
    (text digits : Text) → IsNumberOf digits (without_plus text) → number_of text ≡ some digits
unfolding is_number
IsNumberOf-number_of text digits h =
    let read : _ = IsNumberOf-subscriber (without_plus text) digits h in
    number_of_plain text (ground arith) ∙ read.1

-- A value has a given canonical form exactly when that form is ten ASCII digits and the
-- characters of the value, with Odia and Devanagari digits in ASCII, without whitespace, hyphens
-- and brackets and without one leading plus sign, are that form alone, behind a 0, or behind 91.
pub canonical_phone_digits_lem :
    (value digits : Text)
    → (canonical_phone_digits value ≡ some digits) ↔ IsNumberOf digits (written value)
unfolding canonical_phone_digits kept
canonical_phone_digits_lem value digits =
    subst (λ t. (number_of t ≡ some digits) ↔ IsNumberOf digits (written value))
      (sym (kept-strip value))
      (number_of-IsNumberOf (kept value) digits, IsNumberOf-number_of (kept value) digits)
