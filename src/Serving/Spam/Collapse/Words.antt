-- ===== src/Serving/Spam/Collapse/Words.antt =====
-- Whitespace around a text is no part of its words.
use janasunani.Base.{
  ℕ, ◌≡◌, refl, sym, ap, ◌∙◌, true, false, [], ◌∷◌, ◌++◌, Text, is_space, lstrip, strip, Bool-cases,
  inl, inr,
}
use mathlib.Core.List.{reverse, reverse-cons, reverse-reverse}
use janasunani.Serving.Spam.Collapse.{
  split_word, words, cons_word, trigram_counts, repeated_trigram_share, is_repetition_collapsed_at,
  is_repetition_collapsed,
}

split_word-append :
    (s : Text) (c : ℕ) → is_space c ≡ true → split_word (s ++ (c ∷ [])) ≡ split_word s
unfolding split_word
split_word-append [] c h = rw (h, split_word) refl
split_word-append (x ∷ s) c h = rw (split_word-append s c h, split_word) refl

words-append : (s : Text) (c : ℕ) → is_space c ≡ true → words (s ++ (c ∷ [])) ≡ words s
unfolding words
words-append s c h = ap (λ p. cons_word p.0 p.1) (split_word-append s c h)

pub lstrip-ink : (c : ℕ) (s : Text) → is_space c ≡ false → lstrip (c ∷ s) ≡ c ∷ s
unfolding lstrip
lstrip-ink c s h = rw (h, lstrip) refl

words-lstrip : (s : Text) → words (lstrip s) ≡ words s
unfolding words lstrip split_word
words-lstrip [] = refl
words-lstrip (c ∷ s) = elim (Bool-cases (is_space c)) [
  | inl space ↦ rw (space, lstrip) (words-lstrip s)
  | inr ink ↦ ap words (lstrip-ink c s ink)
]

words-rstrip : (r : Text) → words (reverse (lstrip r)) ≡ words (reverse r)
unfolding lstrip
words-rstrip [] = refl
words-rstrip (c ∷ r) = elim (Bool-cases (is_space c)) [
  | inl space ↦
      rw (space, lstrip, reverse-cons c r) (words-rstrip r ∙ sym (words-append (reverse r) c space))
  | inr ink ↦ rw (ink, lstrip) refl
]

pub words-strip : (s : Text) → words (strip s) ≡ words s
unfolding strip
words-strip s =
    words-rstrip (reverse (lstrip s)) ∙ ap words (reverse-reverse (lstrip s)) ∙ words-lstrip s

pub is_repetition_collapsed-strip :
    (s : Text) → is_repetition_collapsed (strip s) ≡ is_repetition_collapsed s
unfolding is_repetition_collapsed is_repetition_collapsed_at repeated_trigram_share trigram_counts
is_repetition_collapsed-strip s = rw (words-strip s) refl
