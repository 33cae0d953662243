-- ===== src/Egress/Schema/Depth.antt =====
-- The validator accepts just the schemas of at most four levels without a fault.
use mathlib.Core.Bool.{false≢true}
use janasunani.Base.{
  refl, ℕ, suc, ◌+◌, ◌≡◌, ◌≤◌, ◌↔◌, Bool, true, false, max, arith, Bool-cases, inl, inr, ◌&&◌,
}
use janasunani.Egress.Schema.{
  Node, Fields, Items, node, other, no_fields, field, no_items, items, object_type, array_type,
  primitive_type, unsupported_type, has_fields, validate_fields, validate_field, validate_items,
  validate_extract_schema, check_depth,
}

-- The containers on the deepest way down.
mutual
  pub depth_fields : Fields → ℕ
  depth_fields no_fields = 0
  depth_fields (field name n fields) = max (depth_field n) (depth_fields fields)

  pub depth_field : Node → ℕ
  depth_field other = 0
  depth_field (node unsupported_type d ps its) = 0
  depth_field (node primitive_type d ps its) = 0
  depth_field (node object_type d ps its) = suc (depth_fields ps)
  depth_field (node array_type d ps its) = suc (depth_items its)

  pub depth_items : Items → ℕ
  depth_items no_items = 0
  depth_items (items other) = 0
  depth_items (items (node unsupported_type d ps its)) = 0
  depth_items (items (node primitive_type d ps its)) = 0
  depth_items (items (node object_type d ps its)) = suc (depth_fields ps)
  depth_items (items (node array_type d ps its)) = suc (depth_items its)

abbrev pub fault : Bool → ℕ
fault true = 0
fault false = 1

-- Fields that are no dict, have no supported type or no description, and objects with no fields.
mutual
  pub faults_fields : Fields → ℕ
  faults_fields no_fields = 0
  faults_fields (field name n fields) = faults_field n + faults_fields fields

  pub faults_field : Node → ℕ
  faults_field other = 1
  faults_field (node unsupported_type d ps its) = 1
  faults_field (node primitive_type d ps its) = fault d
  faults_field (node object_type d ps its) = fault d + (fault (has_fields ps) + faults_fields ps)
  faults_field (node array_type d ps its) = fault d + faults_items its

  pub faults_items : Items → ℕ
  faults_items no_items = 0
  faults_items (items other) = 0
  faults_items (items (node unsupported_type d ps its)) = 0
  faults_items (items (node primitive_type d ps its)) = 0
  faults_items (items (node object_type d ps its)) = fault (has_fields ps) + faults_fields ps
  faults_items (items (node array_type d ps its)) = faults_items its

-- A container one level down, whose body is valid just at some depth and without faults.
contain_lem :
    (level : ℕ) (body : Bool) (depth faults : ℕ)
    → (suc level ≤ 4 → (body ≡ true) ↔ ((suc level + depth ≤ 4) × (faults ≡ 0)))
    → ((check_depth (suc level) && body) ≡ true) ↔ ((level + suc depth ≤ 4) × (faults ≡ 0))
contain_lem level body depth faults h = elim (Bool-cases (check_depth (suc level))) [
  | inl yes' ↦ ground (arith, yes', h (ground (arith, yes')))
  | inr no' ↦ ground (arith, no')
]

filled_lem :
    (level : ℕ) (filled body : Bool) (depth faults : ℕ)
    → (body ≡ true) ↔ ((level + depth ≤ 4) × (faults ≡ 0))
    → ((filled && body) ≡ true) ↔ ((level + depth ≤ 4) × (fault filled + faults ≡ 0))
filled_lem level true body depth faults h = ground (arith, h)
filled_lem level false body depth faults h = ground arith

both_lem :
    (level : ℕ) (a b : Bool) (m n f g : ℕ)
    → (a ≡ true) ↔ ((level + m ≤ 4) × (f ≡ 0))
    → (b ≡ true) ↔ ((level + n ≤ 4) × (g ≡ 0))
    → ((a && b) ≡ true) ↔ ((level + max m n ≤ 4) × (f + g ≡ 0))
both_lem level true true m n f g (h, h') (k, k') = (
  λ _. let (p, q) = h refl in let (r, s) = k refl in (omega (arith, p, r), omega (arith, q, s)),
  λ _. refl,
)
both_lem level true false m n f g (h, h') (k, k') =
    (λ e. absurd (ground (arith, e)), λ t. k' (omega (arith, t.0), omega (arith, t.1)))
both_lem level false b m n f g (h, h') (k, k') = (
  λ e. absurd (ground (arith, e)),
  λ t. absurd (false≢true (h' (omega (arith, t.0), omega (arith, t.1)))),
)

mutual
  unfolding validate_fields depth_fields faults_fields

  fields_lem :
      (level : ℕ) (fs : Fields)
      → level ≤ 4
      → (validate_fields level fs ≡ true) ↔ ((level + depth_fields fs ≤ 4) × (faults_fields fs ≡ 0))
  fields_lem level no_fields h = ground arith
  fields_lem level (field name n fs) h =
      both_lem level (validate_field level n) (validate_fields level fs) (depth_field n)
        (depth_fields fs) (faults_field n) (faults_fields fs) (field_lem level n h)
        (fields_lem level fs h)

  field_lem :
      (level : ℕ) (n : Node)
      → level ≤ 4
      → (validate_field level n ≡ true) ↔ ((level + depth_field n ≤ 4) × (faults_field n ≡ 0))
  field_lem level other h = ground arith
  field_lem level (node unsupported_type d ps its) h = ground arith
  field_lem level (node primitive_type d ps its) h = ground arith
  field_lem level (node object_type d ps its) h =
      filled_lem level d _ (suc (depth_fields ps)) (fault (has_fields ps) + faults_fields ps) (
        contain_lem level (has_fields ps && validate_fields (suc level) ps) (depth_fields ps)
          (fault (has_fields ps) + faults_fields ps)
          (λ q.
            filled_lem (suc level) (has_fields ps) (validate_fields (suc level) ps)
              (depth_fields ps) (faults_fields ps) (fields_lem (suc level) ps q)))
  field_lem level (node array_type d ps its) h =
      filled_lem level d _ (suc (depth_items its)) (faults_items its) (
        contain_lem level (validate_items (suc level) its) (depth_items its) (faults_items its)
          (λ q. items_lem (suc level) its q))

  items_lem :
      (level : ℕ) (its : Items)
      → level ≤ 4
      → (validate_items level its ≡ true) ↔ ((level + depth_items its ≤ 4) × (faults_items its ≡ 0))
  items_lem level no_items h = ground arith
  items_lem level (items other) h = ground arith
  items_lem level (items (node unsupported_type d ps its)) h = ground arith
  items_lem level (items (node primitive_type d ps its)) h = ground arith
  items_lem level (items (node object_type d ps its)) h =
      contain_lem level (has_fields ps && validate_fields (suc level) ps) (depth_fields ps)
        (fault (has_fields ps) + faults_fields ps)
        (λ q.
          filled_lem (suc level) (has_fields ps) (validate_fields (suc level) ps) (depth_fields ps)
            (faults_fields ps) (fields_lem (suc level) ps q))
  items_lem level (items (node array_type d ps its)) h =
      contain_lem level (validate_items (suc level) its) (depth_items its) (faults_items its)
        (λ q. items_lem (suc level) its q)

-- A schema whose root is an object is accepted exactly when it has properties, it and the
-- containers below it are at most four levels deep, and no field that the walk reaches is other
-- than a dict, has no supported type or no description, and no object that it reaches has no
-- properties.
pub validate_extract_schema_lem :
    (described : Bool) (properties : Fields) (its : Items)
    → (validate_extract_schema (node object_type described properties its) ≡ true) ↔ (
        (has_fields properties ≡ true)
        × (suc (depth_fields properties) ≤ 4)
        × (faults_fields properties ≡ 0))
unfolding validate_extract_schema
validate_extract_schema_lem described properties its =
    ground (arith, fields_lem 1 properties (omega arith))
