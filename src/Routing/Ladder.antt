-- ===== src/Routing/Ladder.antt =====
-- `MappingRouter` and `_LazyDefaultRouter` of janasunani/routing/rules.py: the crosswalk, then the
-- mapping tables, then the rules. `none` is an exception.
pub mod Plain
pub mod Total
use janasunani.Base.{
  ℕ, Bool, true, false, not, ◌&&◌, Option, none, some, List, [], ◌∷◌, ◌++◌, Text, codes,
  if◌then◌else◌, text_eq, ◌>>=◌,
}
use janasunani.Serving.Signals.{non_empty}
use janasunani.Routing.{
  Python, district_name, RoutingResult, Method, rules, learned, validate_routing, norm, or_else,
}
use janasunani.Routing.Rules.{RouteRule, rule_route}
use janasunani.Routing.Mappings.{MappingTables, Department, EscalationChain, resolve}
use janasunani.Routing.Crosswalk.{Crosswalk, CrosswalkRoute, crosswalk_lookup, confidence}

abbrev pub last_from : Text → List Text → Text
last_from t [] = t
last_from t (s ∷ ts) = last_from s ts

module _ (py : Python) where
  -- `office_label`
  abbrev pub office_label : Department → Text → Text
  office_label d office_name =
      if non_empty office_name && not (text_eq office_name (codes "Departments"))
      then office_name
      else d.name_en ++ codes " Department"

  abbrev pub by_department :
      Department → Text → Option Text → Option Text → ℕ → Text → Option RoutingResult
  by_department d label designation authority certainty name = validate_routing (record {
    dept = d.name_en;
    office = label ++ codes ", " ++ name;
    designation = designation;
    escalation_authority = authority;
    confidence = certainty;
    method = rules;
    empirical_evidence = none;
  })

  -- The result of a resolved category; the first designation of an empty chain raises.
  pub resolved_route : Department × Option EscalationChain → Text → Option RoutingResult
  unfolding validate_routing
  resolved_route (d, none) name =
      by_department d (d.name_en ++ codes " Department") none none 7500 name
  resolved_route (d, some chain) name = elim chain.designations [
    | [] ↦ none
    | t ∷ ts ↦
        by_department d (office_label d chain.office_name) (some t) (some (last_from t ts)) 9000
          name
  ]

  -- `MappingRouter.route`
  pub mapping_route :
      Option MappingTables
      → List RouteRule
      → Text
      → Option Text
      → Option Text
      → Option RoutingResult
  unfolding resolved_route rule_route district_name
  mapping_route none table category subcategory district =
      rule_route py table category subcategory district
  mapping_route (some tables) table category subcategory district =
      elim (resolve py tables category) [
        | none ↦ rule_route py table category subcategory district
        | some found ↦ resolved_route found (district_name district)
      ]

  -- The result of a hit in the crosswalk.
  abbrev pub learned_result : CrosswalkRoute → Text → RoutingResult
  learned_result hit name = record {
    dept = hit.dept;
    office = or_else hit.office (hit.dept ++ codes " Department") ++ codes ", " ++ name;
    designation = none;
    escalation_authority = some (codes "District Magistrate, " ++ name);
    confidence = confidence py hit;
    method = learned;
    empirical_evidence =
        some (record { support = hit.support; concentration = hit.share; width = hit.width });
  }

  pub learned_route : CrosswalkRoute → Text → Option RoutingResult
  unfolding validate_routing confidence
  learned_route hit name = validate_routing (learned_result hit name)

  -- `_LazyDefaultRouter.route`, with the crosswalk loaded or absent.
  pub default_route :
      Option Crosswalk
      → Option MappingTables
      → List RouteRule
      → Text
      → Option Text
      → Option Text
      → Option RoutingResult
  unfolding mapping_route learned_route crosswalk_lookup
  default_route none tables table category subcategory district =
      mapping_route tables table category subcategory district
  default_route (some c) tables table category subcategory district =
      elim (crosswalk_lookup py c category subcategory district) [
        | none ↦ mapping_route tables table category subcategory district
        | some hit ↦ learned_route hit (district_name district)
      ]
