-- ===== src/Serving/Spam/Collapse.antt =====
-- The repetition test of janasunani/pipeline/ocr_quality.py. A share is the pair of its counts.
pub mod Shares
pub mod Words
use janasunani.Base.{
  ℕ, zero, suc, ◌+◌, ◌*◌, max, Bool, true, false, Option, none, some, List, [], ◌∷◌, Text,
  text_discrete, if◌then◌else◌, ltb, length, lookup, insert, is_space,
}

-- `str.split()`: the word that the text starts with, and the words after it.
abbrev pub cons_word : Text → List Text → List Text
cons_word [] ws = ws
cons_word (c ∷ w) ws = (c ∷ w) ∷ ws

pub split_word : Text → Text × List Text
split_word [] = ([], [])
split_word (c ∷ s) =
    let (w, ws) = split_word s in if is_space c then ([], cons_word w ws) else (c ∷ w, ws)

pub words : Text → List Text
unfolding split_word
words s = let (w, ws) = split_word s in cons_word w ws

abbrev pub Trigram : Type 0
Trigram = Text × Text × Text

abbrev pub trigram_discrete : Discrete Trigram
trigram_discrete = hlevel (text_discrete)

-- `zip(words, words[1:], words[2:])`
pub trigrams : List Text → List Trigram
trigrams [] = []
trigrams (a ∷ []) = []
trigrams (a ∷ b ∷ []) = []
trigrams (a ∷ b ∷ c ∷ ws) = (a, b, c) ∷ trigrams (b ∷ c ∷ ws)

-- `counts[k]` of a `Counter`
pub count_of : {K : Type 0} → Discrete K → K → List (K × ℕ) → ℕ
count_of dec k m = elim (lookup dec k m) [ none ↦ 0 | some c ↦ c ]

-- `Counter(…)`
pub tally : {K : Type 0} → Discrete K → List K → List (K × ℕ) → List (K × ℕ)
unfolding count_of
tally dec [] m = m
tally dec (x ∷ xs) m = tally dec xs (insert dec x (suc (count_of dec x m)) m)

pub total : {K : Type 0} → List (K × ℕ) → ℕ
total [] = 0
total ((k, c) ∷ m) = c + total m

-- `sum(c for c in counts.values() if c > 1)`
pub repeated : {K : Type 0} → List (K × ℕ) → ℕ
repeated [] = 0
repeated ((k, c) ∷ m) = let rest = repeated m in if ltb 1 c then c + rest else rest

pub largest : {K : Type 0} → List (K × ℕ) → ℕ
largest [] = 0
largest ((k, c) ∷ m) = max c (largest m)

pub trigram_counts : Text → List (Trigram × ℕ)
unfolding words trigrams tally
trigram_counts text = tally trigram_discrete (trigrams (words text)) []

pub top_trigram_share : Text → ℕ × ℕ
unfolding trigram_counts largest total
top_trigram_share text = let counts = trigram_counts text in (largest counts, total counts)

pub repeated_trigram_share : Text → ℕ × ℕ
unfolding trigram_counts repeated total
repeated_trigram_share text = let counts = trigram_counts text in (repeated counts, total counts)

-- `is_repetition_collapsed`; a text with no trigram has share 0.
pub is_repetition_collapsed_at : ℕ × ℕ → Text → Bool
unfolding repeated_trigram_share words
is_repetition_collapsed_at (num, den) text =
    let (r, n) = repeated_trigram_share text in
    if ltb (length (words text)) 20 then false else ltb (num * n) (r * den)

pub is_repetition_collapsed : Text → Bool
unfolding is_repetition_collapsed_at
is_repetition_collapsed text = is_repetition_collapsed_at (1, 2) text
