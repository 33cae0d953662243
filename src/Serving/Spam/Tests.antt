-- ===== src/Serving/Spam/Tests.antt =====
-- The bounded scorer at concrete texts.
use janasunani.Base.{
  ◌≡◌, ◌≤◌, ◌<◌, ◌*◌, ◌-◌, ◌↔◌, refl, true, false, none, some, Text, codes, length, strip, lstrip,
  is_space,
}
use janasunani.Serving.Spam.{Patterns, length_too_short, score_spam, is_content_free_abuse}
use janasunani.Serving.Spam.Padding.{score_spam-strip}
use janasunani.Serving.Spam.Collapse.{is_repetition_collapsed, words, trigrams, trigram_discrete}
use janasunani.Serving.Spam.Collapse.Shares.{repeats, is_repetition_collapsed_lem}

abbrev pub no_patterns : Patterns
no_patterns = record {
  irrelevant_abuse = λ _. false;
  no_grievance = λ _. false;
  placeholder_only = λ _. false;
  without_brackets = λ t. t;
  lower = λ t. t;
}

abbrev short_text : Text
short_text = codes " water "

short_text_reason :
    (score_spam no_patterns (some short_text) (some false)).spam_reason ≡ length_too_short
unfolding score_spam is_content_free_abuse strip lstrip is_space
short_text_reason = refl

is_repetition_collapsed_lem_example : (is_repetition_collapsed short_text ≡ true) ↔ (
    (20 ≤ length (words short_text))
    × (length (words short_text) - 2 < 2 * repeats trigram_discrete (trigrams (words short_text))))
is_repetition_collapsed_lem_example = is_repetition_collapsed_lem short_text

score_spam-strip_example :
    score_spam no_patterns (some (strip short_text)) none
    ≡ score_spam no_patterns (some short_text) none
score_spam-strip_example = score_spam-strip no_patterns short_text none
