-- ===== src/Routing/Crosswalk.antt =====
-- `Crosswalk.lookup` of janasunani/routing/crosswalk.py, with the checks of a loaded table.
pub mod Best
pub mod Supported
use janasunani.Base.{
  ℕ, Bool, true, false, not, ◌&&◌, min, Option, none, some, List, [], ◌∷◌, ◌++◌, Text, codes,
  if◌then◌else◌, text_eq, text_discrete, lookup, ltb, leb, strip,
}
use janasunani.Serving.Signals.{present, optional, non_empty}
use janasunani.Routing.{
  Python, norm, Width, full, category_subcategory, category_district, category_only,
}

-- One aggregate of a table.
pub record Entry : Type 0 where
  pub dept : Text
  pub support : ℕ
  pub share : ℕ
  pub office : Option Text

pub record CrosswalkRoute : Type 0 where
  pub dept : Text
  pub support : ℕ
  pub share : ℕ
  pub width : Width
  pub office : Option Text

abbrev pub Table : Type 0
Table = List (Text × Entry)

pub record Crosswalk : Type 0 where
  pub by_full : Table
  pub by_subcategory : Table
  pub by_category_district : Table
  pub by_category : Table

-- `_valid_entry`, of an entry whose fields have their types.
unfoldable pub valid_entry : Entry → Bool
valid_entry e =
    non_empty (strip e.dept)
    && leb 3 e.support
    && ltb 0 e.share
    && leb e.share 10000
    && optional (λ o. non_empty (strip o)) e.office

module _ (py : Python) where
  unfoldable pub confidence : CrosswalkRoute → ℕ
  confidence r = min 9500 (py.tempered r.share r.support)

  -- `_key`
  pub key_of : Text → Option Text → Option Text → Text
  unfolding norm
  key_of category subcategory district =
      norm py (some category) ++ codes "|" ++ norm py subcategory ++ codes "|" ++ norm py district

  abbrev pub route_of : Width → Entry → CrosswalkRoute
  route_of width e = record {
    dept = e.dept;
    support = e.support;
    share = e.share;
    width = width;
    office = e.office;
  }

  -- One rung of the ladder: a candidate, where the rung is reachable and its entry has support.
  pub rung : Width → Bool → Table → Text → List CrosswalkRoute
  rung width reachable table key =
      if not reachable then [] else elim (lookup text_discrete key table) [
        | none ↦ []
        | some e ↦ if leb 3 e.support then route_of width e ∷ [] else []
      ]

  pub candidates : Crosswalk → Text → Option Text → Option Text → List CrosswalkRoute
  unfolding rung key_of
  candidates c category subcategory district =
      rung full (present subcategory && present district) c.by_full
        (key_of category subcategory district)
      ++ (rung category_subcategory (present subcategory) c.by_subcategory
            (key_of category subcategory none)
          ++ (rung category_district (present district) c.by_category_district
                (key_of category none district)
              ++ rung category_only true c.by_category (key_of category none none)))

  -- `max(candidates, key=confidence)`: the first of equals is kept.
  pub best_from : CrosswalkRoute → List CrosswalkRoute → CrosswalkRoute
  unfolding confidence
  best_from best [] = best
  best_from best (r ∷ rs) = best_from (if ltb (confidence best) (confidence r) then r else best) rs

  unfoldable pub crosswalk_lookup :
      Crosswalk → Text → Option Text → Option Text → Option CrosswalkRoute
  unfolding candidates best_from
  crosswalk_lookup c category subcategory district =
      elim (candidates c category subcategory district) [
        | [] ↦ none
        | r ∷ rs ↦
            let best = best_from r rs in if ltb (confidence best) 3000 then none else some best
      ]
