-- ===== src/Serving/Review/Accepted.antt =====
-- Which scores the review contract accepts.
use janasunani.Base.{◌≡◌, ◌≢◌, ◌↔◌, ◌≤◌, ◌<◌, Bool, Option, some, Text, arith}
use janasunani.Serving.Spam.{SpamScore, Patterns, score_spam, clean}
use janasunani.Serving.Spam.Reasons.{score_spam-clean}
use janasunani.Serving.Review.{review, validate_review, to_review_fields}

-- A score comes with a reason other than `clean` from one half on, and only from there.
pub record IsConsistent (s : SpamScore) : Type 0 where
  pub bounded : s.spam_score ≤ 100
  pub reasoned : (s.spam_reason ≡ clean) ↔ (s.spam_score < 50)

-- The review made from a score is valid exactly when the score is at most 1 and is below one half
-- just for the reason `clean`.
pub to_review_fields-accepted :
    (s : SpamScore)
    → (validate_review (to_review_fields s) ≡ some (to_review_fields s)) ↔ IsConsistent s
unfolding to_review_fields validate_review
to_review_fields-accepted s =
    (λ e. record { bounded = ground arith; reasoned = ground arith }, λ c. ground arith)

score_spam-IsConsistent :
    (re : Patterns) (text : Option Text) (flag : Option Bool)
    → IsConsistent (score_spam re text flag)
score_spam-IsConsistent re text flag =
    let s : _ = score_spam-clean re text flag in record { bounded = s.0; reasoned = s.1 }

decided :
    (s : SpamScore)
    → (s.spam_reason ≡ clean) ↔ (s.spam_score < 50)
    → ((to_review_fields s).decision ≡ review) ↔ (s.spam_reason ≢ clean)
unfolding to_review_fields
decided s (f, g) = (λ e c. ground (arith, f), λ n. ground arith)

-- For every text, every outcome of the pattern matches and every flag, the review made from the
-- bounded score is valid, and its decision is `review` exactly when its reason is not `clean`.
pub score_spam-accepted :
    (re : Patterns) (text : Option Text) (flag : Option Bool)
    → let s = score_spam re text flag in
      (validate_review (to_review_fields s) ≡ some (to_review_fields s))
      × (((to_review_fields s).decision ≡ review) ↔ (s.spam_reason ≢ clean))
score_spam-accepted re text flag =
    let s = score_spam re text flag in
    let consistent : IsConsistent s = score_spam-IsConsistent re text flag in
    ((to_review_fields-accepted s).1 consistent, decided s consistent.reasoned)
