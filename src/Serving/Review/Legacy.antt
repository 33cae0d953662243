-- ===== src/Serving/Review/Legacy.antt =====
-- `_replace_legacy_score_contract` of janasunani/serving/schemas.py: stored reviews are read back.
pub mod Honest
use janasunani.Base.{
  ℕ, ◌⊎◌, ◌≢◌, ◌≤◌, Bool, true, false, Option, none, some, List, [], Text, if◌then◌else◌, ◌>>=◌,
}
use janasunani.Serving.Spam.{SpamReason}
use janasunani.Serving.Review.{
  Score, hundredths, nan, in_range, ReviewDecision, ReasonCode, SpamReview, OcrQualityEvidence,
  validate_review, review, abstained, bounded, live_review_disabled_pending_redacted_adjudication,
  advisory_provider_unavailable, validated_low_signal_evidence, ocr_repetition_collapse_unvalidated,
  mock_low_signal_review_unavailable,
}

-- The words that a stored `decision` may hold.
pub data StoredDecision : Type 0 where
  review_word : StoredDecision
  abstained_word : StoredDecision
  flagged : StoredDecision
  not_scored : StoredDecision
  unknown : StoredDecision

-- A stored score: a number of at least 0, a number below 0, NaN, a boolean, a text, or what is none of
-- these.
pub data StoredScore : Type 0 where
  number : ℕ → StoredScore
  negative : StoredScore
  not_a_number : StoredScore
  boolean : Bool → StoredScore
  numeral : Text → StoredScore
  no_score : StoredScore

pub record StoredReview : Type 0 where
  pub decision : StoredDecision
  pub reason_code : Option ReasonCode
  pub spam_score : Option StoredScore
  pub spam_reason : Option SpamReason
  pub evidence : List OcrQualityEvidence
  pub method : Option Text

abbrev pub is_boolean : Option StoredScore → Bool
is_boolean none = false
is_boolean (some (boolean b)) = true
is_boolean (some (number n)) = false
is_boolean (some negative) = false
is_boolean (some not_a_number) = false
is_boolean (some (numeral text)) = false
is_boolean (some no_score) = false

abbrev pub is_unavailable : ReasonCode → Bool
is_unavailable advisory_provider_unavailable = true
is_unavailable live_review_disabled_pending_redacted_adjudication = false
is_unavailable mock_low_signal_review_unavailable = false
is_unavailable ocr_repetition_collapse_unvalidated = false
is_unavailable validated_low_signal_evidence = false
is_unavailable (bounded _) = false

-- The record of an abstention with neither score, reason nor method.
abbrev pub legacy_abstention : StoredReview → StoredReview
legacy_abstention v = record {
  decision = abstained_word;
  reason_code = some live_review_disabled_pending_redacted_adjudication;
  spam_score = none;
  spam_reason = none;
  evidence = [];
  method = none;
}

unfoldable pub replace_legacy : StoredReview → Option StoredReview
replace_legacy v = if is_boolean v.spam_score then none else elim v.decision [
  | review_word ↦ some v
  | unknown ↦ some v
  | flagged ↦ some (legacy_abstention v)
  | not_scored ↦ some (legacy_abstention v)
  | abstained_word ↦ elim v.reason_code [
    | none ↦ some (legacy_abstention v)
    | some code ↦
        if is_unavailable code
        then some (record v { spam_score = none; spam_reason = none })
        else some v
  ]
]

-- A stored score as a float, where `float_of` is how pydantic reads a text as one; `none` is its refusal.
-- What is below 0 is refused here, with the range.
abbrev pub score_of : (Text → Option Score) → StoredScore → Option Score
score_of float_of (number n) = some (hundredths n)
score_of float_of negative = none
score_of float_of not_a_number = some nan
score_of float_of (boolean true) = some (hundredths 100)
score_of float_of (boolean false) = some (hundredths 0)
score_of float_of (numeral text) = float_of text
score_of float_of no_score = none

abbrev pub score_field : (Text → Option Score) → Option StoredScore → Option (Option Score)
score_field float_of none = some none
score_field float_of (some score) = score_of float_of score >>= λ s. some (some s)

abbrev pub decision_of : StoredDecision → Option ReviewDecision
decision_of review_word = some review
decision_of abstained_word = some abstained
decision_of flagged = none
decision_of not_scored = none
decision_of unknown = none

-- The fields of a stored review, typed; a word, a reason or a score outside the contract is refused.
unfoldable pub typed_review : (Text → Option Score) → StoredReview → Option SpamReview
typed_review float_of v = do
  decision ← decision_of v.decision
  code ← v.reason_code
  score ← score_field float_of v.spam_score
  some (record {
    decision = decision;
    reason_code = code;
    spam_score = score;
    spam_reason = v.spam_reason;
    evidence = v.evidence;
    method = v.method;
  })

-- `SpamReview(**value)`
unfoldable pub read_review : (Text → Option Score) → StoredReview → Option SpamReview
unfolding replace_legacy typed_review validate_review
read_review float_of v = do
  replaced ← replace_legacy v
  typed ← typed_review float_of replaced
  validate_review typed

-- The record that a review is stored as, its fields under their names.
abbrev word : ReviewDecision → StoredDecision
word review = review_word
word abstained = abstained_word

abbrev stored_score : Score → StoredScore
stored_score (hundredths n) = number n
stored_score nan = not_a_number

abbrev pub stored : SpamReview → StoredReview
stored r = record {
  decision = word r.decision;
  reason_code = some r.reason_code;
  spam_score = elim r.spam_score [ none ↦ none | some s ↦ some (stored_score s) ];
  spam_reason = r.spam_reason;
  evidence = r.evidence;
  method = r.method;
}
