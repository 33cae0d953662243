-- ===== src/Routing/Mappings.antt =====
-- The lookups of janasunani/routing/mappings.py over the master tables, once read.
use janasunani.Base.{
  Bool, ◌&&◌, ◌||◌, Option, none, some, List, [], ◌∷◌, Text, if◌then◌else◌, text_eq, text_discrete,
  lookup, insert, set_default, ◌>>=◌,
}
use janasunani.Serving.Signals.{non_empty}
use janasunani.Routing.{Python, norm}

pub record Category : Type 0 where
  pub id : Text
  pub name_en : Text
  pub name_od : Text

pub record Department : Type 0 where
  pub id : Text
  pub name_en : Text
  pub name_od : Text

-- `designations` is the first and the others.
pub record EscalationChain : Type 0 where
  pub department_id : Text
  pub office_name : Text
  pub designations : List Text

pub record MappingTables : Type 0 where
  pub categories : List Category
  pub departments : List Department
  pub category_to_department : List (Text × Text)
  pub escalation_by_department : List (Text × EscalationChain)

module _ (py : Python) where
  abbrev pub named_category : Text → Category → Bool
  named_category key c =
      text_eq (norm py (some c.name_en)) key
      || (non_empty c.name_od && text_eq (norm py (some c.name_od)) key)

  abbrev pub first_category : Text → List Category → Option Category
  first_category key [] = none
  first_category key (c ∷ cs) =
      let rest = first_category key cs in if named_category key c then some c else rest

  pub find_category : MappingTables → Text → Option Category
  unfolding norm
  find_category tables text =
      let key = norm py (some text) in
      if non_empty key then first_category key tables.categories else none

  abbrev pub first_department : Text → List Department → Option Department
  first_department id [] = none
  first_department id (d ∷ ds) =
      let rest = first_department id ds in if text_eq d.id id then some d else rest

  pub find_department : MappingTables → Text → Option Department
  find_department tables id = first_department id tables.departments

  unfoldable pub resolve : MappingTables → Text → Option (Department × Option EscalationChain)
  unfolding find_category find_department
  resolve tables category_text = do
    category ← find_category tables category_text
    department_id ← lookup text_discrete category.id tables.category_to_department
    department ← find_department tables department_id
    some (department, lookup text_discrete department_id tables.escalation_by_department)

  abbrev pub add_name : Text → Text → List (Text × Text) → List (Text × Text)
  add_name name id ids =
      if non_empty name then set_default text_discrete (norm py (some name)) id ids else ids

  -- `_derive_category_to_department`
  pub department_ids : List Department → List (Text × Text) → List (Text × Text)
  department_ids [] ids = ids
  department_ids (d ∷ ds) ids =
      department_ids ds (add_name d.name_od d.id (add_name d.name_en d.id ids))

  pub bridge : List (Text × Text) → Category → Option Text
  bridge ids c = elim (lookup text_discrete (norm py (some c.name_en)) ids) [
    | some id ↦ some id
    | none ↦
        if non_empty c.name_od then lookup text_discrete (norm py (some c.name_od)) ids else none
  ]

  pub bridge_all : List (Text × Text) → List Category → List (Text × Text) → List (Text × Text)
  unfolding bridge
  bridge_all ids [] m = m
  bridge_all ids (c ∷ cs) m = elim (bridge ids c) [
    | none ↦ bridge_all ids cs m
    | some id ↦ bridge_all ids cs (insert text_discrete c.id id m)
  ]

  pub derive_category_to_department : List Category → List Department → List (Text × Text)
  unfolding department_ids bridge_all
  derive_category_to_department categories departments =
      bridge_all (department_ids departments []) categories []
