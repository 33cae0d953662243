-- ===== src/Serving/Triage/Selection.antt =====
-- The status probe names the provider that the selection gives.
use janasunani.Base.{
  text_eq, text_eq_eq, subst, sym, ◌≡◌, ◌↔◌, refl, Bool, true, false, Option, none, some, Text,
  codes, arith,
}
use janasunani.Serving.Spam.{Patterns, is_empty}
use janasunani.Serving.Triage.{
  TriageProvider, unwired, off, scored, actionable, ProviderName, bounded_name, off_name,
  model_name, triage_status, triage_provider_from_env, resolve_learned_scorer,
  load_actionability_scorer, configured,
}

-- The providers that the selection can give, by the name under which the probe reports them.
abbrev pub name_of : {A : Type 0} → TriageProvider A → ProviderName
name_of unwired = bounded_name
name_of off = off_name
name_of (scored _) = bounded_name
name_of (actionable _) = model_name

bounded_not_off :
    (s : Text)
    → text_eq s (codes "bounded") ≡ true
    → (text_eq s (codes "off") ≡ false) × (text_eq s (codes "model") ≡ false)
unfolding text_eq
bounded_not_off s h =
    subst (λ t. (text_eq t (codes "off") ≡ false) × (text_eq t (codes "model") ≡ false))
      (sym (text_eq_eq s (codes "bounded") h)) (refl, refl)

model_alone :
    (s : Text)
    → text_eq s (codes "model") ≡ true
    → (is_empty s ≡ false)
      × (text_eq s (codes "bounded") ≡ false)
      × (text_eq s (codes "off") ≡ false)
unfolding text_eq
model_alone s h =
    subst
      (λ t.
        (is_empty t ≡ false)
        × (text_eq t (codes "bounded") ≡ false)
        × (text_eq t (codes "off") ≡ false))
      (sym (text_eq_eq s (codes "model") h)) (refl, refl, refl)

bounded_itself :
    (text_eq (codes "bounded") (codes "off") ≡ false)
    × (text_eq (codes "bounded") (codes "model") ≡ false)
    × (text_eq (codes "bounded") (codes "bounded") ≡ true)
unfolding text_eq
bounded_itself = (refl, refl, refl)

-- The artifact that the setting asks for is valid, and its model cannot be read.
abbrev pub IsUnreadable :
    {A Path' : Type 0}
    → (Path' → Bool)
    → (Path' → Option (Text → Option A))
    → Option Path'
    → Text
    → Type 0
IsUnreadable validate deserialize none setting = ⊥
IsUnreadable validate deserialize (some path) setting =
    (text_eq setting (codes "model") ≡ true) × (validate path ≡ true) × (deserialize path ≡ none)

module _ {A Path' : Type 0} (re : Patterns) (scorer_present : Bool) (validate : Path' → Bool)
    (deserialize : Path' → Option (Text → Option A)) where
  abbrev pub selected : Option Path' → Option Text → TriageProvider A
  selected artifact value =
      triage_provider_from_env re artifact (load_actionability_scorer validate deserialize) value

  -- For every setting and whether or not an artifact resolves, `triage_status` names the provider
  -- that `triage_provider_from_env` gives, except exactly where the setting is `model`, the
  -- artifact is valid and its model cannot be read.
  pub triage_status-names :
      (artifact : Option Path') (value : Option Text)
      → ((triage_status re scorer_present artifact validate value).0
          ≡ name_of (selected artifact value))
        ↔ (¬ (IsUnreadable validate deserialize artifact (configured re value)))
  unfolding triage_status triage_provider_from_env resolve_learned_scorer load_actionability_scorer
  triage_status-names none value =
      (λ e h. h, λ h. ground (arith, bounded_not_off (configured re value), bounded_itself))
  triage_status-names (some path) value = (
    λ e h. ground (arith, model_alone (configured re value) h.0, h),
    λ h. ground (arith, bounded_not_off (configured re value), bounded_itself),
  )
