-- ===== src/Egress/Schema.antt =====
-- `_validate_extract_schema` of janasunani/egress/sarvam.py, over a schema whose keys are read:
-- false stands for the `ValueError`.
pub mod Depth
use janasunani.Base.{ℕ, suc, ◌+◌, Bool, true, false, ◌&&◌, Text, leb}

-- `type`: a container, another of the supported types, or neither.
pub data FieldType : Type 0 where
  object_type : FieldType
  array_type : FieldType
  primitive_type : FieldType
  unsupported_type : FieldType

-- A node with its type, whether its description holds more than whitespace, its `properties` and
-- its `items`; `other` is what is no dict. Properties that are absent or no dict are `no_fields`.
mutual
  pub data Node : Type 0 where
    node : FieldType → Bool → Fields → Items → Node
    other : Node

  pub data Fields : Type 0 where
    no_fields : Fields
    field : Text → Node → Fields → Fields

  pub data Items : Type 0 where
    no_items : Items
    items : Node → Items

abbrev pub has_fields : Fields → Bool
has_fields no_fields = false
has_fields (field _ _ _) = true

-- `_check_depth`, `_validate_object` of the properties, its loop, and `_validate_array` of the items.
abbrev pub check_depth : ℕ → Bool
check_depth level = leb level 4

mutual
  pub validate_fields : ℕ → Fields → Bool
  validate_fields level no_fields = true
  validate_fields level (field name n fields) =
      validate_field level n && validate_fields level fields

  pub validate_field : ℕ → Node → Bool
  validate_field level other = false
  validate_field level (node unsupported_type described properties its) = false
  validate_field level (node primitive_type described properties its) = described
  validate_field level (node object_type described properties its) =
      described
      && (check_depth (suc level)
          && (has_fields properties && validate_fields (suc level) properties))
  validate_field level (node array_type described properties its) =
      described && (check_depth (suc level) && validate_items (suc level) its)

  pub validate_items : ℕ → Items → Bool
  validate_items level no_items = true
  validate_items level (items other) = true
  validate_items level (items (node unsupported_type described properties its)) = true
  validate_items level (items (node primitive_type described properties its)) = true
  validate_items level (items (node object_type described properties its)) =
      check_depth (suc level) && (has_fields properties && validate_fields (suc level) properties)
  validate_items level (items (node array_type described properties its)) =
      check_depth (suc level) && validate_items (suc level) its

-- The root is an object at level 1.
pub validate_extract_schema : Node → Bool
unfolding validate_fields
validate_extract_schema other = false
validate_extract_schema (node object_type described properties its) =
    check_depth 1 && (has_fields properties && validate_fields 1 properties)
validate_extract_schema (node array_type described properties its) = false
validate_extract_schema (node primitive_type described properties its) = false
validate_extract_schema (node unsupported_type described properties its) = false
