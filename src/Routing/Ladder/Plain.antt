-- ===== src/Routing/Ladder/Plain.antt =====
-- The mapping tables and the rules always give a valid route that claims no history.
use janasunani.Base.{
  ℕ, ◌≡◌, ◌≢◌, ◌≤◌, refl, Option, none, some, List, [], ◌∷◌, Text, All, Returns, arith,
  Option-cases, inl, inr, ◌∙◌, ap, Returns-some, lookup, text_discrete,
}
use janasunani.Routing.{
  Python, RoutingResult, Method, learned, rules, fallback, validate_routing, district_name,
}
use janasunani.Routing.Rules.{RouteRule, rule_route, match_rule}
use janasunani.Routing.Mappings.{
  MappingTables, find_category, find_department, Department, EscalationChain, resolve,
}
use janasunani.Routing.Ladder.{
  resolved_route, mapping_route, by_department, office_label, last_from,
}

-- A route that claims no history.
pub record IsPlain (r : RoutingResult) : Type 0 where
  pub valid : validate_routing r ≡ some r
  pub unlearned : r.method ≢ learned
  pub unproven : r.empirical_evidence ≡ none
  pub certain : r.confidence ≤ 9000

-- Each chain of the tables names a designation, as `_derive_escalation_chains` sees to.
pub record HasChains (tables : MappingTables) : Type 0 where
  pub named : All (λ t. t.1.designations ≢ []) tables.escalation_by_department

plain_valid :
    (r : RoutingResult)
    → r.method ≢ learned
    → r.empirical_evidence ≡ none
    → r.confidence ≤ 9000
    → validate_routing r ≡ some r
unfolding validate_routing
plain_valid r m e c = ground arith

abbrev plain : Text → Text → Option Text → Option Text → ℕ → Method → RoutingResult
plain dept office designation authority certainty method = record {
  dept = dept;
  office = office;
  designation = designation;
  escalation_authority = authority;
  confidence = certainty;
  method = method;
  empirical_evidence = none;
}

plain-Returns :
    (dept office : Text) (designation authority : Option Text) (certainty : ℕ) (method : Method)
    → method ≢ learned
    → certainty ≤ 9000
    → Returns (validate_routing (plain dept office designation authority certainty method)) IsPlain
plain-Returns dept office designation authority certainty method m c =
    let r = plain dept office designation authority certainty method in
    let v = plain_valid r m refl c in
    Returns-some _ IsPlain r v (record { valid = v; unlearned = m; unproven = refl; certain = c })

module _ (py : Python) where
  pub rule_route-IsPlain :
      (table : List RouteRule) (category : Text) (subcategory district : Option Text)
      → Returns (rule_route py table category subcategory district) IsPlain
  unfolding rule_route
  rule_route-IsPlain table category subcategory district =
      elim (Option-cases (match_rule py table category subcategory)) [
        | inl e ↦ rw (e, Returns) (plain-Returns _ _ _ _ 2500 fallback (ground arith) (omega arith))
        | inr (rule, e) ↦
            rw (e, Returns) (plain-Returns _ _ _ _ _ rules (ground arith) (ground arith))
      ]

  resolved_route-IsPlain :
      (d : Department) (chain : Option EscalationChain) (name : Text)
      → ((c : EscalationChain) → chain ≡ some c → c.designations ≢ [])
      → Returns (resolved_route py (d, chain) name) IsPlain
  unfolding resolved_route
  resolved_route-IsPlain d none name h =
      plain-Returns _ _ _ _ 7500 rules (ground arith) (omega arith)
  resolved_route-IsPlain d (some chain) name h = by_list chain.designations (h chain refl)
    where
      by_list :
          (ts : List Text)
          → ts ≢ []
          → Returns
              (elim ts [
                | [] ↦ none
                | t ∷ ts ↦
                    by_department py d
                      (office_label py d chain.office_name)
                      (some t)
                      (some (last_from t ts))
                      9000
                      name
              ])
              IsPlain
      by_list [] n = absurd (n refl)
      by_list (t ∷ ts) n = plain-Returns _ _ _ _ 9000 rules (ground arith) (omega arith)

  -- The chain of a resolved category is one of the tables.
  lookup-named :
      (id : Text) (m : List (Text × EscalationChain)) (c : EscalationChain)
      → All (λ t. t.1.designations ≢ []) m
      → lookup text_discrete id m ≡ some c
      → c.designations ≢ []
  unfolding lookup
  lookup-named id [] c h e = absurd (ground arith)
  lookup-named id ((k, d) ∷ m) c (n, h) e = elim (text_discrete k id) [
    | yes q ↦ ground (arith, n, e)
    | no q ↦ lookup-named id m c h (ground (arith, e))
  ]

  resolve-named :
      (tables : MappingTables) (category : Text) (d : Department) (c : EscalationChain)
      → HasChains tables
      → resolve py tables category ≡ some (d, some c)
      → c.designations ≢ []
  unfolding resolve
  resolve-named tables category d c h e = elim (Option-cases (find_category py tables category)) [
    | inl a ↦ absurd (ground (arith, rw a at e))
    | inr (k, a) ↦
        let e1 = rw a at e in
        elim (Option-cases (lookup text_discrete k.id tables.category_to_department)) [
          | inl b ↦ absurd (ground (arith, rw b at e1))
          | inr (id, b) ↦
              let e2 = rw b at e1 in
              elim (Option-cases (find_department py tables id)) [
                | inl g ↦ absurd (ground (arith, rw g at e2))
                | inr (d', g) ↦
                    lookup-named id tables.escalation_by_department c h.named
                      (ground (arith, rw g at e2))
              ]
        ]
  ]

  pub mapping_route-IsPlain :
      (tables : Option MappingTables) (table : List RouteRule) (category : Text)
      (subcategory district : Option Text)
      → ((t : MappingTables) → tables ≡ some t → HasChains t)
      → Returns (mapping_route py tables table category subcategory district) IsPlain
  unfolding mapping_route
  mapping_route-IsPlain none table category subcategory district h =
      rule_route-IsPlain table category subcategory district
  mapping_route-IsPlain (some tables) table category subcategory district h =
      elim (Option-cases (resolve py tables category)) [
        | inl e ↦ rw (e, Returns) (rule_route-IsPlain table category subcategory district)
        | inr ((d, chain), e) ↦
            rw (e, Returns)
              (resolved_route-IsPlain d chain (district_name district) (λ c k.
                resolve-named tables category d c (h tables refl) (e ∙ ap (λ t. some (d, t)) k)))
      ]
