-- ===== src/Pii/Tagger.antt =====
-- `_postfilter` of janasunani/pipeline/stages/pii_tagger.py: which analyzer results are redacted, and
-- over which characters.
pub mod Trimmed
pub mod Filtered
pub mod Tests
use janasunani.Base.{
  ℕ, zero, suc, ◌+◌, ◌-◌, Bool, true, false, not, ◌&&◌, ◌||◌, Option, none, some, ◌>>=◌, List, [],
  ◌∷◌, ◌++◌, Text, codes, ltb, ◌==◌, if◌then◌else◌, text_eq, length, take, drop, filterb, strip,
  is_space, min, max,
}
use janasunani.Serving.Signals.{non_empty}

-- A result of the analyzer.
pub record RecognizerResult : Type 0 where
  pub entity_type : Text
  pub start : ℕ
  pub end : ℕ
  pub score : ℕ

-- `str.lower`, the labels of `normalize_entity`, and what the two patterns match.
pub record PiiRules : Type 0 where
  pub lower : Text → Text
  pub normalize_entity : Text → Text
  pub is_date_shaped : Text → Bool
  pub preceded_by_reference_marker : Text → ℕ → Bool

-- `text[i]`; `none` stands for an `IndexError`.
unfoldable pub char_at : Text → ℕ → Option ℕ
char_at [] i = none
char_at (c ∷ text) zero = some c
char_at (c ∷ text) (suc i) = char_at text i

-- `text[start:end]`
abbrev pub slice : Text → ℕ → ℕ → Text
slice text start end = take (end - start) (drop start text)

-- The first loop of `_trim_span`, with the characters left.
unfoldable pub trim_start : ℕ → Text → ℕ → Option ℕ
trim_start zero text start = some start
trim_start (suc left) text start = elim (char_at text start) [
  | none ↦ none
  | some c ↦ elim (is_space c) [ true ↦ trim_start left text (suc start) | false ↦ some start ]
]

-- The second loop, from the end with the characters left.
unfoldable pub trim_end : ℕ → Text → ℕ → Option ℕ
trim_end zero text end = some end
trim_end (suc left) text end = elim (char_at text (end - 1)) [
  | none ↦ none
  | some c ↦ elim (is_space c) [ true ↦ trim_end left text (end - 1) | false ↦ some end ]
]

unfoldable pub trim_span : Text → ℕ → ℕ → Option (ℕ × ℕ)
unfolding trim_start trim_end
trim_span text start end = trim_start (end - start) text start >>= λ first.
    trim_end (end - first) text end >>= λ last. some (first, last)

-- The loop that trims; what is whitespace alone is dropped.
unfoldable pub trim_all : Text → List RecognizerResult → Option (List RecognizerResult)
unfolding trim_span
trim_all text [] = some []
trim_all text (result ∷ results) = trim_span text result.start result.end >>= λ span.
    trim_all text results >>= λ rest.
    some (if ltb span.0 span.1 then record result { start = span.0; end = span.1 } ∷ rest else rest)

-- `address.rsplit("@", 1)[-1]`
abbrev pub after_last_at : Text → Text → Text
after_last_at rest [] = rest
after_last_at rest (c ∷ text) = after_last_at (if c == b'@' then text else rest) text

abbrev pub has_at : Text → Bool
has_at [] = false
has_at (c ∷ text) = c == b'@' || has_at text

abbrev pub ends_with : Text → Text → Bool
ends_with suffix text = text_eq (drop (length text - length suffix) text) suffix

abbrev pub is_under : Text → Text → Bool
is_under suffix domain = text_eq domain suffix || ends_with (b'.' ∷ suffix) domain

module _ (p : PiiRules) where
  unfoldable pub is_government_email : Text → Bool
  is_government_email address =
      let value = p.lower (strip address) in
      let domain = after_last_at value value in
      has_at address
      && (non_empty domain
          && (is_under (codes "nic.in") domain
              || (is_under (codes "gov.in") domain || is_under (codes "mil.in") domain)))

  abbrev pub label : RecognizerResult → Text
  label result = p.normalize_entity result.entity_type

  -- A result that is an official e-mail address.
  unfoldable pub is_government : Text → RecognizerResult → Bool
  unfolding is_government_email
  is_government text result =
      text_eq (label result) (codes "EMAIL")
      && is_government_email (slice text result.start result.end)

  abbrev pub overlaps : RecognizerResult → RecognizerResult → Bool
  overlaps a b = ltb (max a.start b.start) (min a.end b.end)

  unfoldable pub overlaps_any : RecognizerResult → List RecognizerResult → Bool
  overlaps_any result [] = false
  overlaps_any result (r ∷ ranges) = overlaps result r || overlaps_any result ranges

  -- A number that is a date, or that is cited as a reference.
  abbrev pub is_no_phone : Text → RecognizerResult → Bool
  is_no_phone text result =
      text_eq (label result) (codes "PHONE")
      && (p.is_date_shaped (slice text result.start result.end)
          || p.preceded_by_reference_marker text result.start)

  unfoldable pub is_excluded : Text → List RecognizerResult → RecognizerResult → Bool
  unfolding overlaps_any
  is_excluded text government result = is_no_phone text result || overlaps_any result government

  unfoldable pub postfilter : Text → List RecognizerResult → Option (List RecognizerResult)
  unfolding trim_all is_government is_excluded
  postfilter text results = trim_all text (
      filterb (λ result. not (is_excluded text (filterb (is_government text) results) result))
        results)
