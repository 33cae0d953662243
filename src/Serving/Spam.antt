-- ===== src/Serving/Spam.antt =====
-- The bounded scorer of janasunani/pipeline/spam.py, over the collapse test of
-- janasunani/pipeline/ocr_quality.py. Scores are in hundredths, as the source writes them.
pub mod Collapse
pub mod Reasons
pub mod Padding
pub mod Tests
use janasunani.Base.{
  ℕ, ◌+◌, Bool, true, false, not, ◌&&◌, ◌||◌, Option, none, some, List, [], ◌∷◌, ◌++◌, Text, codes,
  text_eq, if◌then◌else◌, ltb, leb, length, strip,
}
use Collapse.{words, is_repetition_collapsed}

pub data SpamReason : Type 0 where
  low_signal_details_inadequate : SpamReason
  low_signal_no_grievance : SpamReason
  repetition_collapse : SpamReason
  length_too_short : SpamReason
  clean : SpamReason

pub data EvidenceKind : Type 0 where
  collapse_kind : EvidenceKind
  char_len : EvidenceKind
  word_count : EvidenceKind
  pattern : EvidenceKind

-- `bool | int | float | str`, of which the scorer uses three.
pub data Observed : Type 0 where
  seen : Bool → Observed
  counted : ℕ → Observed
  named : Text → Observed

pub record SpamEvidence : Type 0 where
  pub kind : EvidenceKind
  pub observed : Observed

pub record SpamScore : Type 0 where
  pub spam_score : ℕ
  pub spam_reason : SpamReason
  pub evidence : List SpamEvidence
  pub method : Text

abbrev pub spam_version : Text
spam_version = codes "spam-v1.1-bounded"

-- What the scorer takes from `re` and from `str.lower`: the matches of its three patterns, and
-- the text without what stands in brackets.
pub record Patterns : Type 0 where
  pub irrelevant_abuse : Text → Bool
  pub no_grievance : Text → Bool
  pub placeholder_only : Text → Bool
  pub without_brackets : Text → Text
  pub lower : Text → Text

abbrev pub is_empty : Text → Bool
is_empty [] = true
is_empty (c ∷ s) = false

-- No text is the empty one.
abbrev pub or_empty : Option Text → Text
or_empty none = []
or_empty (some t) = t

-- A flag that the caller gives stands for the test.
abbrev pub or_checked : Option Bool → Text → Bool
or_checked none text = is_repetition_collapsed text
or_checked (some b) text = b

module _ (re : Patterns) where
  pub is_content_free_abuse : Text → Bool
  is_content_free_abuse text = re.irrelevant_abuse (strip text)

  -- `_is_no_grievance_like`
  pub is_no_grievance_like : Text → Bool
  is_no_grievance_like text =
      let stripped = strip text in
      let low = re.lower stripped in
      if is_empty stripped
      then true
      else if re.placeholder_only stripped && is_empty (strip (re.without_brackets stripped))
      then true
      else if re.no_grievance stripped
      then true
      else if text_eq low (codes "test")
          || text_eq low (codes "demo")
          || text_eq low (codes "asdf")
          || text_eq low (codes "blank")
      then true
      else false

  pub score_spam : Option Text → Option Bool → SpamScore
  unfolding is_content_free_abuse is_no_grievance_like
  score_spam redacted_text flag =
      let text = or_empty redacted_text in
      let stripped = strip text in
      let chars = length stripped in
      let count = length (words stripped) in
      let collapsed = or_checked flag text in
      let evidence : List SpamEvidence =
        record { kind = collapse_kind; observed = seen collapsed }
        ∷ record { kind = char_len; observed = counted chars }
        ∷ record { kind = word_count; observed = counted count }
        ∷ [] in
      let scored : ℕ → SpamReason → List SpamEvidence → SpamScore = λ score reason more. record {
        spam_score = score;
        spam_reason = reason;
        evidence = evidence ++ more;
        method = spam_version;
      } in
      if collapsed
      then scored 92 repetition_collapse []
      else if is_content_free_abuse stripped
      then scored 78 low_signal_no_grievance
          (record { kind = pattern; observed = named (codes "irrelevant_abuse") } ∷ [])
      else if ltb chars 20
      then scored 85 length_too_short []
      else if is_no_grievance_like stripped
      then scored 78 low_signal_no_grievance
          (record { kind = pattern; observed = named (codes "no_grievance") } ∷ [])
      else if ltb count 8 || ltb chars 40
      then scored 68 low_signal_details_inadequate []
      else scored 7 clean []

-- `is_spam_flagged`
pub is_spam_flagged : SpamScore → ℕ → Bool
is_spam_flagged score threshold = leb threshold score.spam_score
