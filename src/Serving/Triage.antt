-- ===== src/Serving/Triage.antt =====
-- The advisory triage of janasunani/serving/triage.py: the providers, their selection and the
-- status probe. `none` of a scorer, a loader or a builder is its exception.
pub mod Total
pub mod Selection
pub mod Tests
use janasunani.Base.{
  text_eq, ℕ, Bool, true, false, ◌||◌, Option, none, some, List, [], ◌∷◌, Text, codes,
  if◌then◌else◌, strip, ◌>>=◌,
}
use janasunani.Serving.Spam.{
  SpamScore, SpamReason, Patterns, score_spam, clean, repetition_collapse, is_empty,
}
use janasunani.Serving.Spam.Collapse.{is_repetition_collapsed}
use janasunani.Serving.Review.{
  hundredths, SpamReview, ReviewDecision, ReasonCode, DuplicateReview, TriageResult, review,
  abstained, bounded, unavailable, ocr_repetition_collapse_unvalidated,
  live_review_disabled_pending_redacted_adjudication, advisory_provider_unavailable,
  validate_review, validate_duplicate_review, validate_triage, to_review_fields, triage_of,
}

-- `unavailable_triage`
abbrev pub unavailable_lookup : DuplicateReview
unavailable_lookup = record {
  decision = unavailable;
  reason = some (
      codes
        "Duplicate matching is temporarily unavailable. This is not a finding that no related filing exists.");
}

abbrev pub unavailable_spam : SpamReview
unavailable_spam = record {
  decision = abstained;
  reason_code = advisory_provider_unavailable;
  spam_score = none;
  spam_reason = none;
  evidence = [];
  method = some (codes "unavailable");
}

pub unavailable_triage : {A : Type 0} → Option (TriageResult A)
unfolding validate_duplicate_review validate_triage validate_review
unavailable_triage = do
  lookup ← validate_duplicate_review unavailable_lookup
  spam ← validate_review unavailable_spam
  validate_triage
      (record { duplicate = none; duplicate_review = lookup; spam = spam; actionability = none })

-- `low_signal_advisory`
pub low_signal_advisory : Text → Option SpamReview
unfolding validate_review
low_signal_advisory redacted_text =
    let collapsed = is_repetition_collapsed redacted_text in
    let advisory : ReasonCode → SpamReason → SpamReview = λ code reason. record {
      decision = abstained;
      reason_code = code;
      spam_score = some (hundredths 0);
      spam_reason = some reason;
      evidence = record { observed = collapsed } ∷ [];
      method = some (codes "legacy-advisory");
    } in
    if collapsed
    then validate_review (advisory ocr_repetition_collapse_unvalidated repetition_collapse)
    else validate_review (advisory live_review_disabled_pending_redacted_adjudication clean)

-- The providers; `A` is a checked `ActionabilityReview`, and a learned scorer answers a text with
-- what its review is built from, or raises.
pub data TriageProvider (A : Type 0) : Type 0 where
  unwired : TriageProvider A
  off : TriageProvider A
  scored : (Text → Option SpamScore) → TriageProvider A
  actionable : (Text → Option A) → TriageProvider A

-- `scorer_present` is whether the import of `score_spam` worked.
module _ (re : Patterns) (scorer_present : Bool) where
  pub score_spam_review : Text → Option SpamReview
  unfolding validate_review
  score_spam_review text =
      if scorer_present
      then validate_review (to_review_fields (score_spam re (some text) none))
      else none

  -- `except …: return unavailable_triage()` around the making of a review.
  pub or_unavailable : {A : Type 0} → Option SpamReview → Option A → Option (TriageResult A)
  unfolding unavailable_triage
  or_unavailable none actionability = unavailable_triage
  or_unavailable (some spam) actionability = triage_of spam actionability

  -- `assess` of each provider, over the redacted text.
  pub assess : {A : Type 0} → TriageProvider A → Text → Option (TriageResult A)
  unfolding or_unavailable score_spam_review unavailable_triage validate_review
  assess unwired text = or_unavailable (score_spam_review text) none
  assess off text = unavailable_triage
  assess (scored score) text =
      or_unavailable (score text >>= λ s. validate_review (to_review_fields s)) none
  assess (actionable score) text = or_unavailable (score_spam_review text) (score text)

-- How `_resolve_learned_scorer` ends: with a scorer, or with one of its two errors.
pub data Resolved (A : Type 0) : Type 0 where
  resolved : (Text → Option A) → Resolved A
  artifact_absent : Resolved A
  loader_unimplemented : Resolved A

-- `load_actionability_scorer` validates the artifact, as `triage_status` does, and only then reads the
-- model, which may still raise.
unfoldable pub load_actionability_scorer :
    {A Path' : Type 0}
    → (Path' → Bool)
    → (Path' → Option (Text → Option A))
    → Path'
    → Option (Text → Option A)
load_actionability_scorer validate deserialize artifact =
    if validate artifact then deserialize artifact else none

-- `resolve_artifact` gives a path or none; the loader gives a scorer or raises.
pub resolve_learned_scorer :
    {A Path' : Type 0} → Option Path' → (Path' → Option (Text → Option A)) → Resolved A
resolve_learned_scorer none load = artifact_absent
resolve_learned_scorer (some artifact) load = elim (load artifact) [
  | none ↦ loader_unimplemented
  | some scorer ↦ resolved scorer
]

-- The setting, stripped and in lower case.
abbrev pub configured : Patterns → Option Text → Text
configured re none = re.lower (strip [])
configured re (some value) = re.lower (strip value)

module _ {A Path' : Type 0} (re : Patterns) (artifact : Option Path') where
  -- `triage_provider_from_env`, with `value` the argument or else the environment's.
  pub triage_provider_from_env : (Path' → Option (Text → Option A)) → Option Text → TriageProvider A
  unfolding resolve_learned_scorer
  triage_provider_from_env load value =
      let setting = configured re value in
      if is_empty setting || text_eq setting (codes "bounded")
      then unwired
      else if text_eq setting (codes "off")
      then off
      else if text_eq setting (codes "model")
      then elim (resolve_learned_scorer artifact load) [
        | artifact_absent ↦ unwired
        | loader_unimplemented ↦ unwired
        | resolved scorer ↦ actionable scorer
      ]
      else unwired

-- What `triage_status` reports, without the wording: the provider's name, whether it is what was
-- asked for, and why.
pub data StatusDetail : Type 0 where
  disabled_by_configuration : StatusDetail
  no_artifact_resolved : StatusDetail
  artifact_not_validated : StatusDetail
  artifact_validated : StatusDetail
  unknown_setting : StatusDetail
  scorer_import_failed : StatusDetail
  bounded_heuristic : StatusDetail

pub data ProviderName : Type 0 where
  bounded_name : ProviderName
  off_name : ProviderName
  model_name : ProviderName

module _ {Path' : Type 0} (re : Patterns) (scorer_present : Bool) (artifact : Option Path') where
  -- `validate_actionability_artifact` returns or raises.
  pub triage_status : (Path' → Bool) → Option Text → ProviderName × Bool × StatusDetail
  triage_status validate value =
      let setting = configured re value in
      let setting' = if is_empty setting then codes "bounded" else setting in
      if text_eq setting' (codes "off")
      then (off_name, true, disabled_by_configuration)
      else if text_eq setting' (codes "model")
      then elim artifact [
        | none ↦ (bounded_name, false, no_artifact_resolved)
        | some path ↦
            if validate path
            then (model_name, true, artifact_validated)
            else (bounded_name, false, artifact_not_validated)
      ]
      else if text_eq setting' (codes "bounded")
      then if scorer_present
        then (bounded_name, true, bounded_heuristic)
        else (bounded_name, false, scorer_import_failed)
      else (bounded_name, false, unknown_setting)
