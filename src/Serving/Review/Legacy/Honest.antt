-- ===== src/Serving/Review/Legacy/Honest.antt =====
-- What a stored review reads back as, after `_replace_legacy_score_contract` of
-- janasunani/serving/schemas.py.
use janasunani.Base.{◌≡◌, ◌⊎◌, ◌≢◌, true, false, Option, none, some, [], Text}
use janasunani.Serving.Spam.{SpamReason}
use janasunani.Serving.Review.{
  Score, in_range, SpamReview, review, abstained, bounded, advisory_provider_unavailable,
  validated_low_signal_evidence,
}
use janasunani.Serving.Review.Legacy.{
  review_word, abstained_word, flagged, not_scored, StoredScore, StoredReview, is_boolean, score_of,
  score_field, decision_of,
}

-- The score was stored, as no boolean, and reads as `s`.
abbrev pub IsReadFrom : (Text → Option Score) → Option StoredScore → Score → Type 0
IsReadFrom float_of none s = ⊥
IsReadFrom float_of (some x) s = (is_boolean (some x) ≡ false) × (score_of float_of x ≡ some s)

-- What a stored review reads back as.
pub record IsHonest (float_of : Text → Option Score) (v : StoredReview) (r : SpamReview)
    : Type 0 where
  pub scored :
      (s : Score) → r.spam_score ≡ some s → (in_range s ≡ true) × IsReadFrom float_of v.spam_score s
  pub legacy :
      (v.decision ≡ flagged) ⊎ (v.decision ≡ not_scored)
      → (r.decision ≡ abstained) × (r.spam_score ≡ none) × (r.spam_reason ≡ none)
  pub unscreened :
      r.decision ≡ abstained
      → r.reason_code ≡ advisory_provider_unavailable
      → (r.spam_score ≡ none) × (r.spam_reason ≡ none)
  pub evidenced : r.decision ≡ review → (v.decision ≡ review_word) × (r.evidence ≢ [])
  pub reasoned :
      r.decision ≡ review
      → (s : SpamReason) → r.spam_reason ≡ some s
      → (r.reason_code ≡ bounded s) ⊎ (r.reason_code ≡ validated_low_signal_evidence)

-- What typing takes from a record.
pub record IsTyped (float_of : Text → Option Score) (w : StoredReview) (r : SpamReview)
    : Type 0 where
  pub decided : decision_of w.decision ≡ some r.decision
  pub coded : w.reason_code ≡ some r.reason_code
  pub read : score_field float_of w.spam_score ≡ some r.spam_score
  pub named : w.spam_reason ≡ r.spam_reason
  pub shown : w.evidence ≡ r.evidence

-- What the replacement keeps of a stored record.
pub record IsReplaced (v w : StoredReview) : Type 0 where
  pub score :
      (w.spam_score ≡ none) ⊎ ((w.spam_score ≡ v.spam_score) × (is_boolean v.spam_score ≡ false))
  pub stripped :
      (v.decision ≡ flagged) ⊎ (v.decision ≡ not_scored)
      → (w.decision ≡ abstained_word) × (w.spam_score ≡ none) × (w.spam_reason ≡ none)
  pub unscored :
      w.decision ≡ abstained_word
      → w.reason_code ≡ some advisory_provider_unavailable
      → (w.spam_score ≡ none) × (w.spam_reason ≡ none)
  pub reviewed : w.decision ≡ review_word → v.decision ≡ review_word
