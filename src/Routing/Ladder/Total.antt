-- ===== src/Routing/Ladder/Total.antt =====
-- The ladder always gives a valid route, and calls it learned only on the evidence of a hit.
use janasunani.Base.{
  ◌≡◌, ◌≤◌, refl, sym, subst, Option, none, some, List, [], ◌∷◌, ◌++◌, Text, All, Returns, arith,
  Option-cases, inl, inr, ◌∙◌, ap, Returns-some, Returns-map,
}
use janasunani.Routing.{Python, RoutingResult, learned, validate_routing, district_name}
use janasunani.Routing.Rules.{RouteRule}
use janasunani.Routing.Mappings.{MappingTables}
use janasunani.Routing.Crosswalk.{Crosswalk, CrosswalkRoute, crosswalk_lookup, confidence}
use janasunani.Routing.Crosswalk.Best.{crosswalk_lookup-IsLadder}
use janasunani.Routing.Crosswalk.Supported.{IsLoaded, IsSupported, candidates-IsSupported}
use janasunani.Routing.Ladder.{learned_route, learned_result, default_route}
use janasunani.Routing.Ladder.Plain.{IsPlain, HasChains, mapping_route-IsPlain}

module _ (py : Python) (crosswalk : Option Crosswalk) (category : Text)
    (subcategory district : Option Text) where
  -- The crosswalk answers the request with `hit`.
  pub record Answers (hit : CrosswalkRoute) : Type 0 where
    pub table : Crosswalk
    pub loaded : crosswalk ≡ some table
    pub found : crosswalk_lookup py table category subcategory district ≡ some hit

  -- A valid route, which is learned exactly on a hit, and then reports the hit's figures.
  pub record IsRouted (r : RoutingResult) : Type 0 where
    pub valid : validate_routing r ≡ some r
    pub certain : r.confidence ≤ 9500
    pub on_hit : (hit : CrosswalkRoute) → Answers hit → r.method ≡ learned
    pub honest :
        r.method ≡ learned
        → (hit : CrosswalkRoute) × Answers hit
          × (r.dept ≡ hit.dept)
          × (r.confidence ≡ confidence py hit)
          × (r.empirical_evidence
              ≡ some
                  (record { support = hit.support; concentration = hit.share; width = hit.width }))

module _ (py : Python) where
  All-split :
      (P : CrosswalkRoute → Type 0) (xs before after : List CrosswalkRoute) (a : CrosswalkRoute)
      → All P xs
      → xs ≡ before ++ a ∷ after
      → P a
  All-split P xs before after a h e = at before (subst (All P) e h)
    where
      at : (before : List CrosswalkRoute) → All P (before ++ a ∷ after) → P a
      at [] (p, h) = p
      at (b ∷ before) (q, h) = at before h

  -- The route of a hit.
  learned_valid :
      (hit : CrosswalkRoute) (name : Text)
      → 3 ≤ hit.support
      → hit.share ≤ 10000
      → (confidence py hit ≤ 9500)
        × (validate_routing (learned_result py hit name) ≡ some (learned_result py hit name))
  unfolding validate_routing confidence
  learned_valid hit name s t = (omega arith, ground arith)

  plain-IsRouted :
      (crosswalk : Option Crosswalk) (category : Text) (subcategory district : Option Text)
      → ((hit : CrosswalkRoute) → Answers py crosswalk category subcategory district hit → ⊥)
      → (r : RoutingResult) → IsPlain r
      → IsRouted py crosswalk category subcategory district r
  plain-IsRouted crosswalk category subcategory district no_hit r p = record {
    valid = p.valid;
    certain = omega (arith, p.certain);
    on_hit = λ hit a. absurd (no_hit hit a);
    honest = λ m. absurd (p.unlearned m);
  }

  hit-IsRouted :
      (c : Crosswalk) (category : Text) (subcategory district : Option Text) (hit : CrosswalkRoute)
      → IsLoaded c
      → crosswalk_lookup py c category subcategory district ≡ some hit
      → Returns
          (learned_route py hit (district_name district))
          (IsRouted py (some c) category subcategory district)
  unfolding learned_route
  hit-IsRouted c category subcategory district hit l e =
      let first = ((crosswalk_lookup-IsLadder py c category subcategory district).hit hit e).0 in
      let supported =
        All-split (IsSupported subcategory district) _ first.before first.after hit
          (candidates-IsSupported py c category subcategory district l) first.split in
      let (low, v) =
        learned_valid hit (district_name district) supported.support supported.share.1 in
      Returns-some _ (IsRouted py (some c) category subcategory district) _ v (record {
        valid = v;
        certain = low;
        on_hit = λ _ _. refl;
        honest = λ _. (hit, record { table = c; loaded = refl; found = e }, refl, refl, refl);
      })

  -- With a crosswalk that passed its load checks, or none, and mapping tables whose chains name a
  -- designation, or none, `default_route` returns a valid route with a confidence of at most
  -- 0.95; the method is learned whenever the crosswalk has a hit, and where it is learned there
  -- is a hit whose department, confidence, support, share and width the route reports.
  pub default_route-IsRouted :
      (crosswalk : Option Crosswalk) (tables : Option MappingTables) (table : List RouteRule)
      (category : Text) (subcategory district : Option Text)
      → ((c : Crosswalk) → crosswalk ≡ some c → IsLoaded c)
      → ((t : MappingTables) → tables ≡ some t → HasChains t)
      → Returns
          (default_route py crosswalk tables table category subcategory district)
          (IsRouted py crosswalk category subcategory district)
  unfolding default_route
  default_route-IsRouted none tables table category subcategory district l h =
      Returns-map _ _ _
        (plain-IsRouted none category subcategory district
          (λ hit a. absurd (ground (arith, a.loaded))))
        (mapping_route-IsPlain py tables table category subcategory district h)
  default_route-IsRouted (some c) tables table category subcategory district l h =
      elim (Option-cases (crosswalk_lookup py c category subcategory district)) [
        | inl e ↦
            rw (e, Returns)
              (Returns-map _ _ _
                (plain-IsRouted (some c) category subcategory district (missed c e))
                (mapping_route-IsPlain py tables table category subcategory district h))
        | inr (hit, e) ↦
            rw (e, Returns) (hit-IsRouted c category subcategory district hit (l c refl) e)
      ]
    where
      missed :
          (c : Crosswalk)
          → crosswalk_lookup py c category subcategory district ≡ none
          → (hit : CrosswalkRoute) → Answers py (some c) category subcategory district hit
          → ⊥
      missed c e hit a =
          let same : c ≡ a.table = ground (arith, a.loaded) in
          let found : crosswalk_lookup py c category subcategory district ≡ some hit =
            ap (λ t. crosswalk_lookup py t category subcategory district) same ∙ a.found in
          absurd (ground (arith, sym e ∙ found))
