-- ===== src/Serving/Triage/Total.antt =====
-- Every provider returns an advisory result, and which evidence it carries.
use janasunani.Base.{
  ◌≡◌, ◌≢◌, refl, Bool, true, false, Option, none, some, Text, arith, Returns, ◌>>=◌,
}
use janasunani.Serving.Spam.{SpamScore, Patterns, score_spam}
use janasunani.Serving.Review.{
  SpamReview, TriageResult, validate_review, to_review_fields, triage_of,
  advisory_provider_unavailable, unavailable, validate_triage, validate_duplicate_review,
}
use janasunani.Serving.Triage.{
  TriageProvider, assess, unwired, off, scored, actionable, score_spam_review, or_unavailable,
  unavailable_triage,
}

-- A review that was made from a score.
abbrev IsScored : SpamReview → Type 0
IsScored s = (validate_review s ≡ some s) × (s.reason_code ≢ advisory_provider_unavailable)

validated-IsScored :
    (o : SpamScore) (s : SpamReview) → validate_review (to_review_fields o) ≡ some s → IsScored s
unfolding validate_review to_review_fields
validated-IsScored o s e = (ground arith, ground arith)

score_spam_review-IsScored :
    (re : Patterns) (scorer_present : Bool) (text : Text) (s : SpamReview)
    → score_spam_review re scorer_present text ≡ some s
    → IsScored s
unfolding score_spam_review
score_spam_review-IsScored re true text s e =
    validated-IsScored (score_spam re (some text) none) s e
score_spam_review-IsScored re false text s e = absurd (ground arith)

validate-IsScored :
    (o : Option SpamScore) (s : SpamReview)
    → (o >>= λ t. validate_review (to_review_fields t)) ≡ some s
    → IsScored s
validate-IsScored none s e = absurd (ground arith)
validate-IsScored (some o) s e = validated-IsScored o s e

module _ {A : Type 0} where
  -- A result with a valid review, and no duplicate; the lookup says why it has none. Where nothing
  -- was screened, there is no score, and the lookup is unavailable too. What a learned scorer adds
  -- is its own answer to the text.
  pub record IsAdvisory (provider : TriageProvider A) (text : Text) (r : TriageResult A)
      : Type 0 where
    pub valid : validate_review r.spam ≡ some r.spam
    pub no_duplicate : r.duplicate ≡ none
    pub explained : r.duplicate_review.reason ≢ none
    pub screened :
        r.spam.reason_code ≡ advisory_provider_unavailable
        → (r.spam.spam_score ≡ none)
          × (r.duplicate_review.decision ≡ unavailable)
          × (r.actionability ≡ none)
    pub learned :
        (a : A)
        → r.actionability ≡ some a
        → (f : Text → Option A) × (provider ≡ actionable f) × (f text ≡ some a)

  unavailable_triage-IsAdvisory :
      (provider : TriageProvider A) (text : Text)
      → Returns unavailable_triage (IsAdvisory provider text)
  unfolding unavailable_triage validate_review validate_duplicate_review validate_triage
  unavailable_triage-IsAdvisory provider text = record {
    valid = refl;
    no_duplicate = refl;
    explained = ground arith;
    screened = λ _. (refl, refl, refl);
    learned = λ a e. absurd (ground arith);
  }

  triage_of-IsAdvisory :
      (provider : TriageProvider A) (text : Text) (spam : SpamReview) (actionability : Option A)
      → IsScored spam
      → ((a : A)
          → actionability ≡ some a
          → (f : Text → Option A) × (provider ≡ actionable f) × (f text ≡ some a))
      → Returns (triage_of spam actionability) (IsAdvisory provider text)
  unfolding triage_of validate_duplicate_review validate_triage
  triage_of-IsAdvisory provider text spam actionability (valid, made) from = record {
    valid = valid;
    no_duplicate = refl;
    explained = ground arith;
    screened = λ h. absurd (made h);
    learned = from;
  }

module _ {A : Type 0} (re : Patterns) (scorer_present : Bool) where
  or_unavailable-IsAdvisory :
      (provider : TriageProvider A) (text : Text) (spam : Option SpamReview)
      (actionability : Option A)
      → ((s : SpamReview) → spam ≡ some s → IsScored s)
      → ((a : A)
          → actionability ≡ some a
          → (f : Text → Option A) × (provider ≡ actionable f) × (f text ≡ some a))
      → Returns (or_unavailable re scorer_present spam actionability) (IsAdvisory provider text)
  unfolding or_unavailable
  or_unavailable-IsAdvisory provider text none actionability ok from =
      unavailable_triage-IsAdvisory provider text
  or_unavailable-IsAdvisory provider text (some spam) actionability ok from =
      triage_of-IsAdvisory provider text spam actionability (ok spam refl) from

  -- Every provider returns for every text, whatever its scorer returns or raises: the spam review
  -- is valid, there is no duplicate signal and the lookup says why, a review with the code of an
  -- unavailable provider has no score and comes with an unavailable lookup and no actionability,
  -- and an actionability review comes only from the scorer of an actionability provider, for that
  -- text.
  pub assess-IsAdvisory :
      (provider : TriageProvider A) (text : Text)
      → Returns (assess re scorer_present provider text) (IsAdvisory provider text)
  unfolding assess
  assess-IsAdvisory unwired text =
      or_unavailable-IsAdvisory unwired text _ none
        (score_spam_review-IsScored re scorer_present text) (λ a e. absurd (ground arith))
  assess-IsAdvisory off text = unavailable_triage-IsAdvisory off text
  assess-IsAdvisory (scored score) text =
      or_unavailable-IsAdvisory (scored score) text _ none (validate-IsScored (score text))
        (λ a e. absurd (ground arith))
  assess-IsAdvisory (actionable score) text =
      or_unavailable-IsAdvisory (actionable score) text _ (score text)
        (score_spam_review-IsScored re scorer_present text) (λ a e. (score, refl, e))
