-- ===== src/Egress/Job/Admitted.antt =====
-- Who may send: the guards of a call leave the state alone.
use janasunani.Base.{◌≡◌, Bool, true, false, not, ◌&&◌, inl, inr, Bool-cases, arith, if◌then◌else◌}
use janasunani.Serving.Signals.{non_empty}
use janasunani.Egress.Http.{ok, err}
use janasunani.Egress.Route.{egress_permitted}
use janasunani.Egress.Client.Chain.{>>=-ok, >>=-err}
use janasunani.Egress.Client.State.{
  Adapter, Outside, World, Fault, sarvam_error, sarvam_disabled, sarvam_governance_error, M, ◌>>=◌,
}
use janasunani.Egress.Job.{admit}

-- The adapter is enabled, its route permits a call, and it has a key.
abbrev pub may_send : Adapter → Bool
may_send adapter = adapter.enabled && (egress_permitted adapter.route && non_empty adapter.api_key)

abbrev pub refusal : Adapter → Fault
refusal adapter =
    if not adapter.enabled
    then sarvam_disabled
    else if not (egress_permitted adapter.route)
    then sarvam_governance_error
    else sarvam_error

module _ (env : Outside) (adapter : Adapter) where
  admitted : (w : World) → may_send adapter ≡ true → admit env adapter w ≡ (ok tt, w)
  unfolding admit
  admitted w h = ground arith

  refused :
      (w : World) → may_send adapter ≡ false → admit env adapter w ≡ (err (refusal adapter), w)
  unfolding admit
  refused w h = ground arith

  -- What stands behind the guards runs exactly where they let it.
  pub admit->>= :
      {B : Type 0} (f : Unit {0} → M B) (w : World)
      → (admit env adapter >>= f) w
        ≡ (if may_send adapter then f tt w else (err (refusal adapter), w))
  admit->>= f w = elim (Bool-cases (may_send adapter)) [
    | inl may ↦ rw may (>>=-ok (admit env adapter) f w w tt (admitted w may))
    | inr not' ↦ rw not' (>>=-err (admit env adapter) f w w (refusal adapter) (refused w not'))
  ]
