-- ===== src/Routing/Rules.antt =====
-- `RuleRouter` of janasunani/routing/rules.py.
pub mod Matching
use janasunani.Base.{
  ℕ, Bool, true, false, not, ◌&&◌, Option, none, some, List, [], ◌∷◌, Text, codes, if◌then◌else◌,
  text_eq, filterb, ◌++◌,
}
use janasunani.Serving.Signals.{present, non_empty}
use janasunani.Routing.{
  Python, norm, district_name, RoutingResult, Method, rules, fallback, validate_routing,
}

pub record RouteRule : Type 0 where
  pub category : Text
  pub dept : Text
  pub designation : Text
  pub office_template : Text
  pub escalation_template : Text
  pub subcategory : Option Text

module _ (py : Python) where
  -- `rule.subcategory and _norm(rule.subcategory) == key`
  pub of_subcategory : Text → RouteRule → Bool
  unfolding norm
  of_subcategory key rule = elim rule.subcategory [
    | none ↦ false
    | some s ↦ non_empty s && text_eq (norm py (some s)) key
  ]

  abbrev pub of_category : Text → RouteRule → Bool
  of_category key rule = text_eq (norm py (some rule.category)) key

  abbrev pub without_subcategory : RouteRule → Bool
  without_subcategory rule = not (present rule.subcategory)

  abbrev pub first_where : (RouteRule → Bool) → List RouteRule → Option RouteRule
  first_where p [] = none
  first_where p (rule ∷ table) =
      let rest = first_where p table in if p rule then some rule else rest

  abbrev pub or_next : Option RouteRule → Option RouteRule → Option RouteRule
  or_next none o = o
  or_next (some rule) o = some rule

  -- `_match`
  pub match_rule : List RouteRule → Text → Option Text → Option RouteRule
  unfolding of_subcategory
  match_rule table category subcategory =
      let category_matches = filterb (of_category (norm py (some category))) table in
      or_next (first_where (of_subcategory (norm py subcategory)) category_matches) (
        or_next (first_where without_subcategory category_matches)
          (first_where (λ _. true) category_matches))

  -- `RuleRouter.route`
  unfoldable pub rule_route :
      List RouteRule → Text → Option Text → Option Text → Option RoutingResult
  unfolding match_rule of_subcategory validate_routing district_name
  rule_route table category subcategory district =
      let name = district_name district in
      elim (match_rule table category subcategory) [
        | none ↦ validate_routing (record {
          dept = codes "General Administration & Public Grievance";
          office = codes "Public Grievance Cell, " ++ name;
          designation = some (codes "Public Grievance Officer");
          escalation_authority = some (codes "Collectorate, " ++ name);
          confidence = 2500;
          method = fallback;
          empirical_evidence = none;
        })
        | some rule ↦ validate_routing (record {
          dept = rule.dept;
          office = py.format rule.office_template name;
          designation = some rule.designation;
          escalation_authority = some (py.format rule.escalation_template name);
          confidence = if of_subcategory (norm py subcategory) rule then 9000 else 8000;
          method = rules;
          empirical_evidence = none;
        })
      ]
