-- ===== src/Serving/Review.antt =====
-- The review contract of janasunani/serving/schemas.py: `SpamReview`, `DuplicateReview` and
-- `TriageResult`, each with its validators, and `SpamScore.to_review_fields` of
-- janasunani/pipeline/spam.py. `none` of a validator is its `ValueError`.
pub mod Accepted
pub mod Legacy
pub mod Tests
use janasunani.Base.{
  ℕ, Bool, true, false, not, ◌&&◌, ◌||◌, Option, none, some, List, [], ◌∷◌, Text, codes,
  if◌then◌else◌, ltb, leb,
}
use janasunani.Serving.Signals.{DuplicateSignal, present, optional, non_empty}
use janasunani.Serving.Spam.{
  SpamReason, SpamScore, SpamEvidence, EvidenceKind, Observed, seen, counted, named, collapse_kind,
  char_len, word_count, pattern, clean, repetition_collapse, length_too_short,
  low_signal_no_grievance, low_signal_details_inadequate,
}

pub data ReviewDecision : Type 0 where
  review : ReviewDecision
  abstained : ReviewDecision

-- `reason_code`: one of the scorer's five, or of the five others.
pub data ReasonCode : Type 0 where
  bounded : SpamReason → ReasonCode
  validated_low_signal_evidence : ReasonCode
  ocr_repetition_collapse_unvalidated : ReasonCode
  live_review_disabled_pending_redacted_adjudication : ReasonCode
  mock_low_signal_review_unavailable : ReasonCode
  advisory_provider_unavailable : ReasonCode

-- Its one kind is "repetition_collapse".
pub record OcrQualityEvidence : Type 0 where
  pub observed : Bool

-- A float of the contract, in hundredths, or NaN.
pub data Score : Type 0 where
  hundredths : ℕ → Score
  nan : Score

-- `ge=0.0, le=1.0`: a float is refused that is below or above, which NaN is not.
abbrev pub in_range : Score → Bool
in_range (hundredths n) = leb n 100
in_range nan = true

pub record SpamReview : Type 0 where
  pub decision : ReviewDecision
  pub reason_code : ReasonCode
  pub spam_score : Option Score
  pub spam_reason : Option SpamReason
  pub evidence : List OcrQualityEvidence
  pub method : Option Text

abbrev pub same_reason : SpamReason → SpamReason → Bool
same_reason low_signal_details_inadequate low_signal_details_inadequate = true
same_reason low_signal_no_grievance low_signal_no_grievance = true
same_reason repetition_collapse repetition_collapse = true
same_reason length_too_short length_too_short = true
same_reason clean clean = true
same_reason _ _ = false

-- `bounded_review_reasons`
abbrev pub is_review_reason : SpamReason → Bool
is_review_reason clean = false
is_review_reason low_signal_details_inadequate = true
is_review_reason low_signal_no_grievance = true
is_review_reason repetition_collapse = true
is_review_reason length_too_short = true

abbrev pub no_evidence : List OcrQualityEvidence → Bool
no_evidence [] = true
no_evidence (_ ∷ _) = false

-- `_decision_matches_the_reason_code`, after the range of the field `spam_score`.
abbrev pub decision_matches :
    ReviewDecision → ReasonCode → Option SpamReason → List OcrQualityEvidence → Bool
decision_matches review validated_low_signal_evidence reason evidence = not (no_evidence evidence)
decision_matches review (bounded code) reason evidence =
    is_review_reason code && not (no_evidence evidence) && optional (λ r. same_reason r code) reason
decision_matches review ocr_repetition_collapse_unvalidated reason evidence = false
decision_matches review live_review_disabled_pending_redacted_adjudication reason evidence = false
decision_matches review mock_low_signal_review_unavailable reason evidence = false
decision_matches review advisory_provider_unavailable reason evidence = false
decision_matches abstained validated_low_signal_evidence reason evidence = false
decision_matches abstained (bounded code) reason evidence = not (is_review_reason code)
decision_matches abstained ocr_repetition_collapse_unvalidated reason evidence = true
decision_matches abstained live_review_disabled_pending_redacted_adjudication reason evidence = true
decision_matches abstained mock_low_signal_review_unavailable reason evidence = true
decision_matches abstained advisory_provider_unavailable reason evidence = true

unfoldable pub validate_review : SpamReview → Option SpamReview
validate_review r =
    if optional in_range r.spam_score
      && decision_matches r.decision r.reason_code r.spam_reason r.evidence
    then some r
    else none

-- `bool(observed)`
abbrev pub truth : Observed → Bool
truth (seen b) = b
truth (counted n) = ltb 0 n
truth (named t) = non_empty t

-- `next((e for e in evidence if e.kind == "repetition_collapse"), None)`, and its truth.
pub collapse_seen : List SpamEvidence → Bool
collapse_seen [] = false
collapse_seen (e ∷ evidence) = elim e.kind [
  | collapse_kind ↦ truth e.observed
  | char_len ↦ collapse_seen evidence
  | word_count ↦ collapse_seen evidence
  | pattern ↦ collapse_seen evidence
]

unfoldable pub to_review_fields : SpamScore → SpamReview
unfolding collapse_seen
to_review_fields s = record {
  decision = if leb 50 s.spam_score then review else abstained;
  reason_code = bounded s.spam_reason;
  spam_score = some (hundredths s.spam_score);
  spam_reason = some s.spam_reason;
  evidence = record { observed = collapse_seen s.evidence } ∷ [];
  method = some s.method;
}

pub data DuplicateDecision : Type 0 where
  matched : DuplicateDecision
  no_match : DuplicateDecision
  abstained_lookup : DuplicateDecision
  not_indexed : DuplicateDecision
  unavailable : DuplicateDecision

pub record DuplicateReview : Type 0 where
  pub decision : DuplicateDecision
  pub reason : Option Text

-- `_unavailable_states_explain_themselves`
unfoldable pub validate_duplicate_review : DuplicateReview → Option DuplicateReview
validate_duplicate_review r = elim r.decision [
  | matched ↦ if present r.reason then none else some r
  | no_match ↦ if present r.reason then none else some r
  | abstained_lookup ↦ if present r.reason && optional non_empty r.reason then some r else none
  | not_indexed ↦ if present r.reason && optional non_empty r.reason then some r else none
  | unavailable ↦ if present r.reason && optional non_empty r.reason then some r else none
]

-- `A` stands for a checked `ActionabilityReview`.
pub record TriageResult (A : Type 0) : Type 0 where
  pub duplicate : Option DuplicateSignal
  pub duplicate_review : DuplicateReview
  pub spam : SpamReview
  pub actionability : Option A

abbrev pub is_match : DuplicateDecision → Bool
is_match matched = true
is_match no_match = false
is_match abstained_lookup = false
is_match not_indexed = false
is_match unavailable = false

abbrev pub same_bool : Bool → Bool → Bool
same_bool true b = b
same_bool false b = not b

-- `_duplicate_signal_matches_review_state`
unfoldable pub validate_triage : {A : Type 0} → TriageResult A → Option (TriageResult A)
validate_triage r =
    if same_bool (present r.duplicate) (is_match r.duplicate_review.decision) then some r else none

abbrev pub not_indexed_review : DuplicateReview
not_indexed_review = record {
  decision = not_indexed;
  reason = some (
      codes
        "Duplicate matching has not been run for this submission because the live submission path is not connected to a completed index.");
}

-- `TriageResult(spam=…)` and `TriageResult(spam=…, actionability=…)`
unfoldable pub triage_of : {A : Type 0} → SpamReview → Option A → Option (TriageResult A)
unfolding validate_duplicate_review validate_triage
triage_of spam actionability = elim (validate_duplicate_review not_indexed_review) [
  | none ↦ none
  | some lookup ↦ validate_triage (record {
    duplicate = none;
    duplicate_review = lookup;
    spam = spam;
    actionability = actionability;
  })
]
