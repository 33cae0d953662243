-- ===== src/Serving/Spam/Reasons.antt =====
-- The bounded scorer scores below one half exactly what it calls clean.
use janasunani.Base.{◌≡◌, ◌↔◌, ◌≤◌, ◌<◌, Bool, Option, Text, arith}
use janasunani.Serving.Spam.{Patterns, score_spam, clean}

pub score_spam-clean :
    (re : Patterns) (redacted_text : Option Text) (flag : Option Bool)
    → let s = score_spam re redacted_text flag in
      (s.spam_score ≤ 100) × ((s.spam_reason ≡ clean) ↔ (s.spam_score < 50))
unfolding score_spam
score_spam-clean re redacted_text flag = (ground arith, ground arith)
