-- ===== src/Egress/Route.antt =====
-- `ProviderRoute` of janasunani/egress/sarvam.py: what an outside provider must declare, and when a
-- call may proceed.
pub mod Permitted
use janasunani.Base.{
  Bool, true, false, not, ◌&&◌, ◌||◌, Option, none, some, List, [], ◌∷◌, ◌++◌, Text, codes, strip,
  if◌then◌else◌,
}
use janasunani.Serving.Signals.{non_empty, present}

pub record GovernanceControl : Type 0 where
  pub statement : Text
  pub verified : Bool

pub record RiskAcceptance : Type 0 where
  pub authority : Text
  pub basis : Text
  pub scope : Text
  pub accepted_on : Text

pub record ProviderRoute : Type 0 where
  pub name : Text
  pub provider : Text
  pub model_id : Text
  pub endpoint : Text
  pub trust_tier : Text
  pub data_class : Text
  pub authorization_reference : Text
  pub retention_terms : GovernanceControl
  pub encryption_in_transit : GovernanceControl
  pub encryption_at_rest : GovernanceControl
  pub audit_policy : Text
  pub fallback : Text
  pub accepted_risk : Option RiskAcceptance

abbrev pub unless_verified : Text → GovernanceControl → List Text
unless_verified name control = if control.verified then [] else name ∷ []

pub unverified_controls : ProviderRoute → List Text
unverified_controls r =
    unless_verified (codes "retention_terms") r.retention_terms
    ++ (unless_verified (codes "encryption_in_transit") r.encryption_in_transit
        ++ unless_verified (codes "encryption_at_rest") r.encryption_at_rest)

abbrev pub required_text : ProviderRoute → List Text
required_text r =
    r.trust_tier ∷ r.data_class ∷ r.endpoint ∷ r.authorization_reference
    ∷ r.retention_terms.statement ∷ r.encryption_in_transit.statement
    ∷ r.encryption_at_rest.statement ∷ r.audit_policy ∷ r.fallback ∷ []

abbrev pub all_declared : List Text → Bool
all_declared [] = true
all_declared (value ∷ values) = non_empty (strip value) && all_declared values

pub declared_controls_complete : ProviderRoute → Bool
declared_controls_complete r = all_declared (required_text r)

abbrev pub is_none_left : List Text → Bool
is_none_left [] = true
is_none_left (_ ∷ _) = false

pub live_use_ready : ProviderRoute → Bool
unfolding declared_controls_complete unverified_controls
live_use_ready r = declared_controls_complete r && is_none_left (unverified_controls r)

pub egress_permitted : ProviderRoute → Bool
unfolding declared_controls_complete unverified_controls
egress_permitted r =
    if not (declared_controls_complete r)
    then false
    else is_none_left (unverified_controls r) || present r.accepted_risk

pub data EgressBasis : Type 0 where
  verified_controls : EgressBasis
  accepted : EgressBasis
  blocked : EgressBasis

pub egress_basis : ProviderRoute → EgressBasis
unfolding live_use_ready egress_permitted
egress_basis r =
    if live_use_ready r then verified_controls else if egress_permitted r then accepted else blocked
