-- ===== src/Routing/Provider/Live.antt =====
-- What a good status promises: the rung that the probe names does answer first.
use janasunani.Base.{
  ◌≡◌, ◌≢◌, refl, sym, subst, Bool, true, false, not, ◌&&◌, Option, none, some, List, [], ◌∷◌, Text,
  codes, if◌then◌else◌, text_eq, text_eq_eq, arith, Bool-cases, Option-cases, inl, inr, Returns,
  Returns-map,
}
use janasunani.Serving.Signals.{non_empty}
use janasunani.Routing.{Python, learned}
use janasunani.Routing.Rules.{RouteRule, rule_route}
use janasunani.Routing.Mappings.{MappingTables}
use janasunani.Routing.Crosswalk.{Crosswalk, CrosswalkRoute, Table, crosswalk_lookup}
use janasunani.Routing.Crosswalk.Supported.{IsLoaded}
use janasunani.Routing.Ladder.{default_route}
use janasunani.Routing.Ladder.Plain.{HasChains, IsPlain, rule_route-IsPlain}
use janasunani.Routing.Ladder.Total.{IsRouted, default_route-IsRouted}
use janasunani.Routing.Provider.{
  IncidenceRouter, Incidence, unresolved, invalid, load_raised, loaded, load_incidence_provider,
  RoutingProvider, default_router, without_crosswalk, rule_router, incidence_provider, RouterName,
  router_default, router_rules, router_incidence, RouterStatus, setting_of, router_from_env,
  incidence_status, eligible_status, before_bar, any_answers, table_status, crosswalk_status,
  router_status, provider_route,
}

any_answers-lookup :
    (py : Python) (c : Crosswalk) (table : Table)
    → any_answers py c table ≡ true
    → (category : Text) × (hit : CrosswalkRoute) × (crosswalk_lookup py c category none none
        ≡ some hit)
unfolding any_answers
any_answers-lookup py c [] h = absurd (ground (arith, h))
any_answers-lookup py c ((key, entry) ∷ table) h =
    elim (Option-cases (crosswalk_lookup py c (before_bar key) none none)) [
      | inl e ↦ any_answers-lookup py c table (ground (arith, h, e))
      | inr (hit, e) ↦ (before_bar key, hit, e)
    ]

setting_apart :
    (s : Text)
    → (text_eq s (codes "rules") ≡ true
        → (text_eq s (codes "crosswalk") ≡ false) × (non_empty s ≡ true))
      × (text_eq s (codes "incidence") ≡ true
          → (text_eq s (codes "crosswalk") ≡ false) × (non_empty s ≡ true))
unfolding text_eq
setting_apart s = (
  λ h.
      subst (λ t. (text_eq t (codes "crosswalk") ≡ false) × (non_empty t ≡ true))
        (sym (text_eq_eq s (codes "rules") h)) (refl, refl),
  λ h.
      subst (λ t. (text_eq t (codes "crosswalk") ≡ false) × (non_empty t ≡ true))
        (sym (text_eq_eq s (codes "incidence") h)) (refl, refl),
)

module _ (py : Python) (crosswalk : Option Crosswalk) (tables : Option MappingTables)
    (table : List RouteRule) where
  -- The provider gives first what the name says.
  abbrev pub IsLive : RouterName → RoutingProvider → Type 0
  IsLive router_default provider =
      (category : Text) × Returns
        (provider_route py crosswalk tables table provider category none none)
        (λ r. r.method ≡ learned)
  IsLive router_rules provider =
      (category : Text) (subcategory district : Option Text)
      → Returns (provider_route py crosswalk tables table provider category subcategory district)
          (λ r. r.method ≢ learned)
  IsLive router_incidence provider =
      (router : IncidenceRouter) × (provider ≡ incidence_provider router)
      × (router.has_eligible_prediction ≡ some true)

  learns_on_hit :
      ((c : Crosswalk) → crosswalk ≡ some c → IsLoaded c)
      → ((t : MappingTables) → tables ≡ some t → HasChains t)
      → (c : Crosswalk) → crosswalk ≡ some c
      → any_answers py c c.by_category ≡ true
      → IsLive router_default default_router
  unfolding provider_route
  learns_on_hit l h c e a =
      let found : _ = any_answers-lookup py c c.by_category a in
      (
        found.0,
        Returns-map (default_route py crosswalk tables table found.0 none none)
            (IsRouted py crosswalk found.0 none none) (λ r. r.method ≡ learned)
            (λ r routed. routed.on_hit found.1 (record { table = c; loaded = e; found = found.2 }))
            (default_route-IsRouted py crosswalk tables table found.0 none none l h),
      )

  abbrev Promises : RouterStatus → RoutingProvider → Type 0
  Promises status provider = status.ok ≡ true → IsLive status.name provider

  no_history :
      ((t : MappingTables) → tables ≡ some t → HasChains t)
      → (constructs : Bool)
      → IsLive router_rules (if constructs then without_crosswalk else rule_router)
  unfolding provider_route
  no_history h true category subcategory district =
      Returns-map (default_route py none tables table category subcategory district)
        (IsRouted py none category subcategory district) (λ r. r.method ≢ learned)
        (λ r routed m. absurd (ground (arith, (routed.honest m).1.loaded)))
        (default_route-IsRouted py none tables table category subcategory district
          (λ c e. absurd (ground (arith, e))) h)
  no_history h false category subcategory district =
      Returns-map (rule_route py table category subcategory district) IsPlain
        (λ r. r.method ≢ learned) (λ r plain. plain.unlearned)
        (rule_route-IsPlain py table category subcategory district)

  eligible_status-Promises :
      (router : IncidenceRouter) (e : Option Bool)
      → router.has_eligible_prediction ≡ e
      → Promises (eligible_status e) (incidence_provider router)
  eligible_status-Promises router none h = λ good. absurd (ground (arith, good))
  eligible_status-Promises router (some false) h = λ good. absurd (ground (arith, good))
  eligible_status-Promises router (some true) h = λ good. (router, refl, h)

  incidence_status-Promises :
      (incidence : Incidence)
      → Promises
          (incidence_status incidence)
          (elim (load_incidence_provider incidence) [ none ↦ default_router | some p ↦ p ])
  incidence_status-Promises unresolved = λ good. absurd (ground (arith, good))
  incidence_status-Promises invalid = λ good. absurd (ground (arith, good))
  incidence_status-Promises load_raised = λ good. absurd (ground (arith, good))
  incidence_status-Promises (loaded router) =
      eligible_status-Promises router router.has_eligible_prediction refl

  module _ (l : (c : Crosswalk) → crosswalk ≡ some c → IsLoaded c)
      (h : (t : MappingTables) → tables ≡ some t → HasChains t) where
    table_status-Promises :
        (c : Crosswalk)
        → (entries : Table)
        → (any_answers py c entries ≡ true → IsLive router_default default_router)
        → Promises (table_status py c entries) default_router
    unfolding table_status
    table_status-Promises c [] live = λ good. absurd (ground (arith, good))
    table_status-Promises c (entry ∷ entries) live =
        elim (Bool-cases (any_answers py c (entry ∷ entries))) [
          | inl a ↦ rw (a, table_status) (λ good. live a)
          | inr n ↦ rw (n, table_status) (λ good. absurd (ground (arith, good)))
        ]

    crosswalk_status-Promises :
        (is_file : Bool) → Promises (crosswalk_status py is_file crosswalk) default_router
    unfolding crosswalk_status
    crosswalk_status-Promises is_file = elim (Option-cases crosswalk) [
      | inl e ↦ at none e (λ good. absurd (ground (arith, good)))
      | inr (c, e) ↦
          at (some c) e (table_status-Promises c c.by_category (λ a. learns_on_hit l h c e a))
    ]
      where
        at :
            (o : Option Crosswalk)
            → crosswalk ≡ o
            → Promises (crosswalk_status py is_file o) default_router
            → Promises (crosswalk_status py is_file crosswalk) default_router
        at o e = subst (λ x. Promises (crosswalk_status py is_file x) default_router) (sym e)

    -- With a crosswalk that passed its load checks, or none, and mapping tables whose chains name
    -- a designation, or none, a good status of `router_status` is kept by the provider that
    -- `router_from_env` gives for the same setting: under the name of the default there is a
    -- category for which its route returns and is learned; under the name of the rules no route
    -- that it returns is learned, and it returns for every request; under the name of the
    -- incidence router it is the provider of a loaded router with an eligible prediction.
    pub router_status-IsLive :
        (lower : Text → Text) (constructs : Bool) (incidence : Incidence) (is_file : Bool)
        (value : Option Text)
        → (router_status py lower incidence is_file crosswalk value).ok ≡ true
        → IsLive
            (router_status py lower incidence is_file crosswalk value).name
            (router_from_env lower constructs incidence value)
    unfolding router_status router_from_env
    router_status-IsLive lower constructs incidence is_file value =
        let s : Text = setting_of lower value in
        elim (Bool-cases (text_eq s (codes "rules"))) [
          | inl r ↦
              let apart : _ = (setting_apart s).0 r in
              rw (r, apart.0, apart.1, router_status, router_from_env)
                (λ good. no_history h constructs)
          | inr r ↦ elim (Bool-cases (text_eq s (codes "incidence"))) [
            | inl i ↦
                let apart : _ = (setting_apart s).1 i in
                rw (r, i, apart.0, apart.1, router_status, router_from_env)
                  (incidence_status-Promises incidence)
            | inr i ↦ elim (Bool-cases (non_empty s && not (text_eq s (codes "crosswalk")))) [
              | inl u ↦ rw (r, i, u, router_status) (λ good. absurd (ground (arith, good)))
              | inr u ↦ elim (Bool-cases (non_empty s)) [
                | inl some' ↦
                    let default : text_eq s (codes "crosswalk") ≡ true = ground (arith, u, some') in
                    rw (r, i, some', default, router_status, router_from_env)
                      (crosswalk_status-Promises is_file)
                | inr empty ↦
                    rw (r, i, empty, router_status, router_from_env)
                      (crosswalk_status-Promises is_file)
              ]
            ]
          ]
        ]
