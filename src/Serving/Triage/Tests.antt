-- ===== src/Serving/Triage/Tests.antt =====
-- The triage providers at concrete settings.
use janasunani.Serving.Spam.Tests.{no_patterns}
use janasunani.Base.{
  ℕ, ◌≡◌, ◌↔◌, refl, Bool, true, Option, none, some, Text, codes, Returns, if◌then◌else◌, ◌==◌,
  text_eq, strip, lstrip, is_space,
}
use janasunani.Serving.Triage.{actionable, assess, triage_status, model_name, configured}
use janasunani.Serving.Triage.Total.{IsAdvisory, assess-IsAdvisory}
use janasunani.Serving.Triage.Selection.{name_of, IsUnreadable, selected, triage_status-names}

abbrev scorer : Text → Option ℕ
scorer text = some 3

-- The second artifact is valid, and its model cannot be read.
abbrev deserialize : ℕ → Option (Text → Option ℕ)
deserialize path = if path == 1 then some scorer else none

abbrev artifact_is_valid : ℕ → Bool
artifact_is_valid path = true

assess-IsAdvisory_example :
    Returns
      (assess no_patterns true (actionable scorer) (codes "no water"))
      (IsAdvisory (actionable scorer) (codes "no water"))
assess-IsAdvisory_example =
    assess-IsAdvisory no_patterns true (actionable scorer) (codes "no water")

unreadable_is_reported_as_model :
    (triage_status no_patterns true (some 2) artifact_is_valid (some (codes "model"))).0
    ≡ model_name
unfolding triage_status text_eq strip lstrip is_space
unreadable_is_reported_as_model = refl

triage_status-names_example :
    ((triage_status no_patterns true (some 2) artifact_is_valid (some (codes "model"))).0
      ≡ name_of
          (selected no_patterns true artifact_is_valid deserialize (some 2) (some (codes "model"))))
    ↔ (¬ (
        IsUnreadable artifact_is_valid deserialize
          (some 2)
          (configured no_patterns (some (codes "model")))))
triage_status-names_example =
    triage_status-names no_patterns true artifact_is_valid deserialize (some 2)
      (some (codes "model"))
