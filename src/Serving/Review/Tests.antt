-- ===== src/Serving/Review/Tests.antt =====
-- The review contract at concrete scores and stored records.
use janasunani.Serving.Spam.Tests.{no_patterns}
use janasunani.Base.{
  ◌≡◌, ◌≢◌, ◌↔◌, refl, true, false, Option, none, some, [], ◌∷◌, Text, codes, text_eq,
  if◌then◌else◌,
}
use janasunani.Serving.Spam.{SpamScore, clean, repetition_collapse, score_spam}
use janasunani.Serving.Review.{
  Score, hundredths, SpamReview, review, abstained, bounded, validate_review, to_review_fields,
  live_review_disabled_pending_redacted_adjudication,
}
use janasunani.Serving.Review.Accepted.{
  IsConsistent, to_review_fields-accepted, score_spam-accepted,
}
use janasunani.Serving.Review.Legacy.{
  StoredReview, review_word, flagged, number, numeral, read_review, replace_legacy, typed_review,
}

-- A text reads as 0.92, or not at all.
abbrev reads : Text → Option Score
reads text = if text_eq text (codes "0.92") then some (hundredths 92) else none

abbrev worded_record : StoredReview
worded_record = record {
  decision = review_word;
  reason_code = some (bounded repetition_collapse);
  spam_score = some (numeral (codes "0.92"));
  spam_reason = none;
  evidence = record { observed = true } ∷ [];
  method = none;
}

abbrev worded_review : SpamReview
worded_review = record {
  decision = review;
  reason_code = bounded repetition_collapse;
  spam_score = some (hundredths 92);
  spam_reason = none;
  evidence = record { observed = true } ∷ [];
  method = none;
}

abbrev loop_score : SpamScore
loop_score = record {
  spam_score = 92;
  spam_reason = repetition_collapse;
  evidence = [];
  method = codes "model";
}

abbrev flagged_record : StoredReview
flagged_record = record {
  decision = flagged;
  reason_code = none;
  spam_score = some (number 80);
  spam_reason = none;
  evidence = [];
  method = some (codes "demo");
}

abbrev legacy_review : SpamReview
legacy_review = record {
  decision = abstained;
  reason_code = live_review_disabled_pending_redacted_adjudication;
  spam_score = none;
  spam_reason = none;
  evidence = [];
  method = none;
}

abbrev clean_review : SpamReview
clean_review = record {
  decision = abstained;
  reason_code = bounded clean;
  spam_score = some (hundredths 7);
  spam_reason = some clean;
  evidence = record { observed = false } ∷ [];
  method = none;
}

flagged_record_read : read_review reads flagged_record ≡ some legacy_review
unfolding read_review replace_legacy typed_review validate_review
flagged_record_read = refl

to_review_fields-accepted_example :
    (validate_review (to_review_fields loop_score) ≡ some (to_review_fields loop_score))
    ↔ IsConsistent loop_score
to_review_fields-accepted_example = to_review_fields-accepted loop_score

score_spam-accepted_example :
    let s = score_spam no_patterns (some (codes "water")) none in
    (validate_review (to_review_fields s) ≡ some (to_review_fields s))
    × (((to_review_fields s).decision ≡ review) ↔ (s.spam_reason ≢ clean))
score_spam-accepted_example = score_spam-accepted no_patterns (some (codes "water")) none
