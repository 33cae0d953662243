-- ===== src/Routing.antt =====
-- The routing ladder of janasunani/routing: the crosswalk, the mapping tables and the rules, with
-- the result contract of janasunani/serving/schemas.py. Shares and confidences are in
-- ten-thousandths, to which the source rounds them.
pub mod Rules
pub mod Crosswalk
pub mod Mappings
pub mod Ladder
pub mod Provider
pub mod Tests
use janasunani.Base.{
  ℕ, Bool, true, false, not, ◌&&◌, Option, none, some, List, [], ◌∷◌, ◌++◌, Text, codes,
  if◌then◌else◌, ltb, leb,
}
use janasunani.Serving.Signals.{present, optional}
use janasunani.Serving.Spam.Collapse.{words}

-- What routing takes from Python: `str.casefold`, `str.format` with the district, and the float
-- `share * min(1.0, log1p(support) / log1p(200))`, rounded.
pub record Python : Type 0 where
  pub casefold : Text → Text
  pub format : Text → Text → Text
  pub tempered : ℕ → ℕ → ℕ

-- `" ".join(words)`
unfoldable pub join : List Text → Text
join [] = []
join (w ∷ []) = w
join (w ∷ v ∷ ws) = w ++ codes " " ++ join (v ∷ ws)

abbrev pub or_else : Option Text → Text → Text
or_else none t = t
or_else (some []) t = t
or_else (some (c ∷ s)) t = c ∷ s

-- `_norm` and `_district`
unfoldable pub norm : Python → Option Text → Text
unfolding join
norm py value = join (words (py.casefold (or_else value [])))

unfoldable pub district_name : Option Text → Text
unfolding join
district_name value = join (words (or_else value (codes "State")))

pub data Width : Type 0 where
  full : Width
  category_subcategory : Width
  category_district : Width
  category_only : Width

pub data Method : Type 0 where
  rules : Method
  learned : Method
  fallback : Method
  mock : Method

pub record EmpiricalRoutingEvidence : Type 0 where
  pub support : ℕ
  pub concentration : ℕ
  pub width : Width

pub record RoutingResult : Type 0 where
  pub dept : Text
  pub office : Text
  pub designation : Option Text
  pub escalation_authority : Option Text
  pub confidence : ℕ
  pub method : Method
  pub empirical_evidence : Option EmpiricalRoutingEvidence

abbrev pub is_learned : Method → Bool
is_learned learned = true
is_learned rules = false
is_learned fallback = false
is_learned mock = false

-- The ranges of the fields, and `_empirical_evidence_matches_method`.
unfoldable pub validate_routing : RoutingResult → Option RoutingResult
validate_routing r =
    if not (leb r.confidence 10000)
    then none
    else if not (optional (λ e. leb 1 e.support && leb e.concentration 10000) r.empirical_evidence)
    then none
    else if is_learned r.method && not (present r.empirical_evidence)
    then none
    else if not (is_learned r.method) && present r.empirical_evidence
    then none
    else some r
