-- ===== src/Egress/Route/Permitted.antt =====
-- When a call may proceed, and on which basis it is recorded.
use janasunani.Base.{◌≡◌, ◌≢◌, ◌↔◌, true, none, arith}
use janasunani.Egress.Route.{
  ProviderRoute, verified_controls, accepted, blocked, unverified_controls,
  declared_controls_complete, live_use_ready, egress_permitted, egress_basis,
}

abbrev pub AllVerified : ProviderRoute → Type 0
AllVerified r =
    (r.retention_terms.verified ≡ true)
    × (r.encryption_in_transit.verified ≡ true)
    × (r.encryption_at_rest.verified ≡ true)

-- The basis of a route: its controls are verified, its risk is accepted, or it is blocked.
pub record IsGoverned (r : ProviderRoute) : Type 0 where
  pub on_controls :
      (egress_basis r ≡ verified_controls) ↔ ((declared_controls_complete r ≡ true) × AllVerified r)
  pub on_acceptance :
      (egress_basis r ≡ accepted)
      ↔ ((declared_controls_complete r ≡ true) × (AllVerified r → ⊥) × (r.accepted_risk ≢ none))
  pub permitted : (egress_permitted r ≡ true) ↔ (egress_basis r ≢ blocked)

-- A route goes out on verified controls exactly when its fields are declared and its three
-- controls are verified, on an accepted risk exactly when they are declared, not all controls are
-- verified and a risk acceptance is there, and it is permitted exactly when its basis is not
-- `blocked`.
pub egress_basis-IsGoverned : (r : ProviderRoute) → IsGoverned r
unfolding egress_basis live_use_ready egress_permitted unverified_controls
egress_basis-IsGoverned r = record {
  on_controls = ground arith;
  on_acceptance = ground arith;
  permitted = ground arith;
}
