-- ===== src/Serving/Spam/Padding.antt =====
-- Whitespace around a text changes nothing in its score.
use janasunani.Base.{
  ℕ, ◌≡◌, refl, sym, ap, ◌∙◌, Bool, false, Option, none, some, [], ◌∷◌, ◌++◌, Text, is_space,
  lstrip, strip, Bool-cases, inl, inr,
}
use mathlib.Core.List.{reverse, reverse-cons, reverse-append, reverse-reverse}
use janasunani.Serving.Spam.{Patterns, or_checked, score_spam}
use janasunani.Serving.Spam.Collapse.Words.{lstrip-ink, is_repetition_collapsed-strip}

lstrip-append :
    (s : Text) (c : ℕ) → is_space c ≡ false → lstrip (s ++ (c ∷ [])) ≡ lstrip s ++ (c ∷ [])
unfolding lstrip
lstrip-append [] c h = lstrip-ink c [] h
lstrip-append (x ∷ s) c h = elim (Bool-cases (is_space x)) [
  | inl space ↦ rw (space, lstrip) (lstrip-append s c h)
  | inr ink ↦ rw (ink, lstrip) refl
]

rstrip-ink :
    (c : ℕ) (s : Text)
    → is_space c ≡ false
    → reverse (lstrip (reverse (c ∷ s))) ≡ c ∷ reverse (lstrip (reverse s))
rstrip-ink c s h =
    ap (λ r. reverse (lstrip r)) (reverse-cons c s)
    ∙ ap reverse (lstrip-append (reverse s) c h)
    ∙ reverse-append (lstrip (reverse s)) (c ∷ [])

lstrip-lstrip : (s : Text) → lstrip (lstrip s) ≡ lstrip s
unfolding lstrip
lstrip-lstrip [] = refl
lstrip-lstrip (c ∷ s) = elim (Bool-cases (is_space c)) [
  | inl space ↦ rw (space, lstrip) (lstrip-lstrip s)
  | inr ink ↦ ap lstrip (lstrip-ink c s ink)
]

-- What is stripped on the left starts with no whitespace once it is stripped on the right.
lstrip-rstrip :
    (s : Text)
    → lstrip (reverse (lstrip (reverse (lstrip s)))) ≡ reverse (lstrip (reverse (lstrip s)))
unfolding lstrip
lstrip-rstrip [] = refl
lstrip-rstrip (c ∷ s) = elim (Bool-cases (is_space c)) [
  | inl space ↦ rw (space, lstrip) (lstrip-rstrip s)
  | inr ink ↦ rw (lstrip-ink c s ink) (
      ap lstrip (rstrip-ink c s ink)
      ∙ lstrip-ink c (reverse (lstrip (reverse s))) ink
      ∙ sym (rstrip-ink c s ink))
]

strip-strip : (s : Text) → strip (strip s) ≡ strip s
unfolding strip
strip-strip s =
    let left : Text = lstrip s in
    let right : Text = lstrip (reverse left) in
    ap (λ t. reverse (lstrip (reverse t))) (lstrip-rstrip s)
    ∙ ap (λ t. reverse (lstrip t)) (reverse-reverse right)
    ∙ ap reverse (lstrip-lstrip (reverse left))

or_checked-strip : (flag : Option Bool) (s : Text) → or_checked flag (strip s) ≡ or_checked flag s
or_checked-strip none s = is_repetition_collapsed-strip s
or_checked-strip (some b) s = refl

-- The score reads the collapse flag and the stripped text.
same_score :
    (re : Patterns) (s t : Text) (flag : Option Bool)
    → or_checked flag s ≡ or_checked flag t
    → strip s ≡ strip t
    → score_spam re (some s) flag ≡ score_spam re (some t) flag
unfolding score_spam
same_score re s t flag e h = rw (e, h) refl

-- Whitespace around a text changes nothing in its score, reason or evidence, whether the caller
-- gives the collapse flag or leaves it to the test on the whole text.
pub score_spam-strip :
    (re : Patterns) (text : Text) (flag : Option Bool)
    → score_spam re (some (strip text)) flag ≡ score_spam re (some text) flag
score_spam-strip re text flag =
    same_score re (strip text) text flag (or_checked-strip flag text) (strip-strip text)
