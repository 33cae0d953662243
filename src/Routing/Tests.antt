-- ===== src/Routing/Tests.antt =====
-- The routing ladder at concrete tables.
use janasunani.Base.{
  text_eq, ◌≡◌, refl, subst, true, none, some, List, [], ◌∷◌, Text, codes, All, Returns, strip,
  lstrip, is_space,
}
use janasunani.Routing.{Python}
use janasunani.Routing.Rules.{RouteRule, match_rule}
use janasunani.Routing.Rules.Matching.{IsMatch, match_rule-IsMatch}
use janasunani.Routing.Mappings.{MappingTables}
use janasunani.Routing.Crosswalk.{Crosswalk, Entry, candidates, crosswalk_lookup, valid_entry}
use janasunani.Routing.Crosswalk.Best.{IsLadder, crosswalk_lookup-IsLadder}
use janasunani.Routing.Crosswalk.Supported.{IsLoaded, IsSupported, candidates-IsSupported}
use janasunani.Routing.Ladder.{default_route}
use janasunani.Routing.Ladder.Plain.{HasChains}
use janasunani.Routing.Provider.{Incidence, loaded, router_from_env, router_status}
use janasunani.Routing.Provider.Live.{IsLive, router_status-IsLive}
use janasunani.Routing.Ladder.Total.{IsRouted, default_route-IsRouted}

abbrev plain_python : Python
plain_python = record {
  casefold = λ t. t;
  format = λ template name. template;
  tempered = λ share support. share;
}

abbrev energy_rule : RouteRule
energy_rule = record {
  category = codes "power";
  dept = codes "Energy";
  designation = codes "Executive Engineer";
  office_template = codes "Collector";
  escalation_template = codes "Magistrate";
  subcategory = none;
}

abbrev water_entry : Entry
water_entry = record { dept = codes "Water"; support = 40; share = 8000; office = none }

abbrev water_table : List (Text × Entry)
water_table = (codes "water||", water_entry) ∷ []

abbrev water_crosswalk : Crosswalk
water_crosswalk = record {
  by_full = [];
  by_subcategory = [];
  by_category_district = [];
  by_category = water_table;
}

abbrev no_tables : MappingTables
no_tables = record {
  categories = [];
  departments = [];
  category_to_department = [];
  escalation_by_department = [];
}

water_entry_valid : valid_entry water_entry ≡ true
unfolding valid_entry strip lstrip is_space
water_entry_valid = refl

water-IsLoaded : IsLoaded water_crosswalk
water-IsLoaded = record {
  full_valid = tt;
  subcategory_valid = tt;
  district_valid = tt;
  category_valid = (water_entry_valid, tt);
}

IsLoaded-water : (c : Crosswalk) → some water_crosswalk ≡ some c → IsLoaded c
IsLoaded-water c e = let same : water_crosswalk ≡ c = cc in subst IsLoaded same water-IsLoaded

chains_none : (t : MappingTables) → some no_tables ≡ some t → HasChains t
chains_none t e = let same : no_tables ≡ t = cc in subst HasChains same (record { named = tt })

match_rule-IsMatch_example :
    IsMatch plain_python
      (energy_rule ∷ [])
      (codes "power")
      none
      (match_rule plain_python (energy_rule ∷ []) (codes "power") none)
match_rule-IsMatch_example = match_rule-IsMatch plain_python (energy_rule ∷ []) (codes "power") none

crosswalk_lookup-IsLadder_example :
    IsLadder plain_python
      (candidates plain_python water_crosswalk (codes "water") none (some (codes "Cuttack")))
      (crosswalk_lookup plain_python water_crosswalk (codes "water") none (some (codes "Cuttack")))
crosswalk_lookup-IsLadder_example =
    crosswalk_lookup-IsLadder plain_python water_crosswalk (codes "water") none
      (some (codes "Cuttack"))

candidates-IsSupported_example :
    All
      (IsSupported none (some (codes "Cuttack")))
      (candidates plain_python water_crosswalk (codes "water") none (some (codes "Cuttack")))
candidates-IsSupported_example =
    candidates-IsSupported plain_python water_crosswalk (codes "water") none
      (some (codes "Cuttack")) water-IsLoaded

default_route-IsRouted_example :
    Returns
      (default_route plain_python
        (some water_crosswalk)
        (some no_tables)
        (energy_rule ∷ [])
        (codes "water")
        none
        none)
      (IsRouted plain_python (some water_crosswalk) (codes "water") none none)
default_route-IsRouted_example =
    default_route-IsRouted plain_python (some water_crosswalk) (some no_tables) (energy_rule ∷ [])
      (codes "water") none none IsLoaded-water chains_none

abbrev water_incidence : Incidence
water_incidence = loaded (record {
  predict_with_evidence = λ category subcategory district. some none;
  has_eligible_prediction = some true;
})

router_status-IsLive_example :
    IsLive plain_python
      (some water_crosswalk)
      (some no_tables)
      (energy_rule ∷ [])
      (router_status plain_python
        (λ t. t)
        water_incidence
        true
        (some water_crosswalk)
        (some (codes " incidence"))).name
      (router_from_env (λ t. t) true water_incidence (some (codes " incidence")))
unfolding router_status text_eq strip lstrip is_space
router_status-IsLive_example =
    router_status-IsLive plain_python (some water_crosswalk) (some no_tables) (energy_rule ∷ [])
      IsLoaded-water chains_none (λ t. t) true water_incidence true (some (codes " incidence")) refl
