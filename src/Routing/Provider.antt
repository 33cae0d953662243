-- ===== src/Routing/Provider.antt =====
-- janasunani/routing/provider.py: the incidence provider over its fallback, the choice of a router by its
-- setting, and the probe that names the rung that answers first. Probabilities are in ten-thousandths, as
-- confidences are; the texts of the probe's details are constructors.
pub mod Live
use janasunani.Base.{
  ℕ, Bool, true, false, not, ◌&&◌, ◌||◌, min, Option, none, some, ◌>>=◌, List, [], ◌∷◌, ◌++◌, Text,
  codes, if◌then◌else◌, ltb, ◌==◌, text_eq, strip,
}
use janasunani.Serving.Signals.{present, non_empty}
use janasunani.Routing.{Python, district_name, RoutingResult, learned, Width, validate_routing}
use janasunani.Routing.Rules.{RouteRule, rule_route}
use janasunani.Routing.Mappings.{MappingTables}
use janasunani.Routing.Crosswalk.{Crosswalk, Entry, Table, crosswalk_lookup}
use janasunani.Routing.Ladder.{mapping_route, default_route}

-- What the incidence router answers; a width that is no rung of the contract is `none`.
pub record Prediction : Type 0 where
  pub probabilities : List (Text × ℕ)
  pub support : ℕ
  pub concentration : ℕ
  pub width : Option Width

-- The loaded artifact; an outer `none` is an exception.
pub record IncidenceRouter : Type 0 where
  pub predict_with_evidence : Text → Option Text → Option Text → Option (Option Prediction)
  pub has_eligible_prediction : Option Bool

-- `resolve_artifact` and `load_incidence_router`
pub data Incidence : Type 0 where
  unresolved : Incidence
  invalid : Incidence
  load_raised : Incidence
  loaded : IncidenceRouter → Incidence

pub data RoutingProvider : Type 0 where
  default_router : RoutingProvider
  without_crosswalk : RoutingProvider
  rule_router : RoutingProvider
  incidence_provider : IncidenceRouter → RoutingProvider

pub data RouterName : Type 0 where
  router_default : RouterName
  router_rules : RouterName
  router_incidence : RouterName

pub data Detail : Type 0 where
  crosswalk_disabled : Detail
  artifact_unresolved : Detail
  artifact_invalid : Detail
  artifact_ineligible : Detail
  artifact_loaded : Detail
  artifact_raised : Detail
  unknown_router : Detail
  category_table_empty : Detail
  no_entry_eligible : Detail
  first_rung_learned : Detail
  crosswalk_invalid : Detail
  crosswalk_missing : Detail

pub record RouterStatus : Type 0 where
  pub name : RouterName
  pub ok : Bool
  pub detail : Detail

-- `max(probabilities, key=probabilities.get)`: the first of equals; an empty dict raises.
abbrev pub most_probable_from : Text × ℕ → List (Text × ℕ) → Text × ℕ
most_probable_from best [] = best
most_probable_from best (p ∷ ps) = most_probable_from (if ltb best.1 p.1 then p else best) ps

abbrev pub most_probable : List (Text × ℕ) → Option (Text × ℕ)
most_probable [] = none
most_probable (p ∷ ps) = some (most_probable_from p ps)

-- The route of a prediction; `none` is an exception.
unfoldable pub incidence_result : Prediction → Option Text → Option RoutingResult
unfolding validate_routing district_name
incidence_result prediction district = most_probable prediction.probabilities >>= λ best.
    prediction.width >>= λ width. validate_routing (record {
      dept = best.0;
      office = best.0 ++ codes ", " ++ district_name district;
      designation = none;
      escalation_authority = none;
      confidence = min 9500 best.1;
      method = learned;
      empirical_evidence = some (record {
        support = prediction.support;
        concentration = prediction.concentration;
        width = width;
      });
    })

-- `IncidenceRoutingProvider.route`
unfoldable pub incidence_route :
    IncidenceRouter
    → (Text → Option Text → Option Text → Option RoutingResult)
    → Text
    → Option Text
    → Option Text
    → Option RoutingResult
unfolding incidence_result
incidence_route router fallback category subcategory district =
    elim (router.predict_with_evidence category subcategory district) [
      | none ↦ fallback category subcategory district
      | some none ↦ fallback category subcategory district
      | some (some prediction) ↦ elim (incidence_result prediction district) [
        | none ↦ fallback category subcategory district
        | some result ↦ some result
      ]
    ]

-- `_load_incidence_provider`
abbrev pub load_incidence_provider : Incidence → Option RoutingProvider
load_incidence_provider unresolved = none
load_incidence_provider invalid = none
load_incidence_provider load_raised = none
load_incidence_provider (loaded router) = some (incidence_provider router)

-- The setting in lower case, where there is one.
abbrev pub setting_of : (Text → Text) → Option Text → Text
setting_of lower none = lower (strip [])
setting_of lower (some value) = lower (strip value)

-- `router_from_env`; `constructs` says whether the router without the crosswalk could be made.
unfoldable pub router_from_env : (Text → Text) → Bool → Incidence → Option Text → RoutingProvider
router_from_env lower constructs incidence value =
    let configured = setting_of lower value in
    if not (non_empty configured)
    then default_router
    else if text_eq configured (codes "crosswalk")
    then default_router
    else if text_eq configured (codes "rules")
    then if constructs then without_crosswalk else rule_router
    else if text_eq configured (codes "incidence")
    then elim (load_incidence_provider incidence) [ none ↦ default_router | some p ↦ p ]
    else default_router

-- The status of a loaded artifact, by its own check.
abbrev pub eligible_status : Option Bool → RouterStatus
eligible_status none = record { name = router_default; ok = false; detail = artifact_raised }
eligible_status (some false) = record {
  name = router_default;
  ok = false;
  detail = artifact_ineligible;
}
eligible_status (some true) = record {
  name = router_incidence;
  ok = true;
  detail = artifact_loaded;
}

abbrev pub incidence_status : Incidence → RouterStatus
incidence_status unresolved = record {
  name = router_default;
  ok = false;
  detail = artifact_unresolved;
}
incidence_status invalid = record { name = router_default; ok = false; detail = artifact_invalid }
incidence_status load_raised = record {
  name = router_default;
  ok = false;
  detail = artifact_raised;
}
incidence_status (loaded router) = eligible_status router.has_eligible_prediction

-- `key.split("|")[0]`
abbrev pub before_bar : Text → Text
before_bar [] = []
before_bar (c ∷ text) = let rest = before_bar text in if c == b'|' then [] else c ∷ rest

module _ (py : Python) where
  -- Whether `lookup` answers for some key of the table.
  unfoldable pub any_answers : Crosswalk → Table → Bool
  unfolding crosswalk_lookup
  any_answers c [] = false
  any_answers c ((key, entry) ∷ table) =
      present (crosswalk_lookup py c (before_bar key) none none) || any_answers c table

  -- The status of a loaded crosswalk, by its category table.
  unfoldable pub table_status : Crosswalk → Table → RouterStatus
  unfolding any_answers
  table_status c [] = record { name = router_default; ok = false; detail = category_table_empty }
  table_status c (entry ∷ table) =
      if not (any_answers c (entry ∷ table))
      then record { name = router_default; ok = false; detail = no_entry_eligible }
      else record { name = router_default; ok = true; detail = first_rung_learned }

  unfoldable pub crosswalk_status : Bool → Option Crosswalk → RouterStatus
  unfolding table_status
  crosswalk_status is_file none =
      if is_file
      then record { name = router_default; ok = false; detail = crosswalk_invalid }
      else record { name = router_default; ok = false; detail = crosswalk_missing }
  crosswalk_status is_file (some c) = table_status c c.by_category

  -- `router_status`, of the crosswalk that the loader gives.
  unfoldable pub router_status :
      (Text → Text) → Incidence → Bool → Option Crosswalk → Option Text → RouterStatus
  unfolding crosswalk_status
  router_status lower incidence is_file crosswalk value =
      let configured = setting_of lower value in
      if text_eq configured (codes "rules")
      then record { name = router_rules; ok = true; detail = crosswalk_disabled }
      else if text_eq configured (codes "incidence")
      then incidence_status incidence
      else if non_empty configured && not (text_eq configured (codes "crosswalk"))
      then record { name = router_default; ok = false; detail = unknown_router }
      else crosswalk_status is_file crosswalk

  -- What each provider does with a request.
  unfoldable pub provider_route :
      Option Crosswalk
      → Option MappingTables
      → List RouteRule
      → RoutingProvider
      → Text
      → Option Text
      → Option Text
      → Option RoutingResult
  unfolding rule_route incidence_route
  provider_route crosswalk tables table default_router category subcategory district =
      default_route py crosswalk tables table category subcategory district
  provider_route crosswalk tables table without_crosswalk category subcategory district =
      default_route py none tables table category subcategory district
  provider_route crosswalk tables table rule_router category subcategory district =
      rule_route py table category subcategory district
  provider_route crosswalk tables table (incidence_provider router) category subcategory district =
      incidence_route router (default_route py crosswalk tables table) category subcategory district
