-- ===== src/Routing/Crosswalk/Supported.antt =====
-- What a candidate of the crosswalk rests on.
use janasunani.Base.{
  ◌≡◌, ◌≢◌, ◌≤◌, ◌<◌, refl, Bool, true, false, ◌&&◌, Option, none, some, List, [], ◌∷◌, ◌++◌, Text,
  All, leb, if◌then◌else◌, arith, inl, inr, text_discrete, lookup, Option-cases, Bool-cases,
}
use janasunani.Serving.Signals.{present}
use janasunani.Routing.{Python, Width, full, category_subcategory, category_district, category_only}
use janasunani.Routing.Crosswalk.{
  CrosswalkRoute, Crosswalk, Entry, Table, rung, candidates, route_of, key_of, valid_entry,
}

-- The tables that `load_crosswalk` lets through: each entry is valid.
abbrev pub IsValidTable : Table → Type 0
IsValidTable table = All (λ t. valid_entry t.1 ≡ true) table

pub record IsLoaded (c : Crosswalk) : Type 0 where
  pub full_valid : IsValidTable c.by_full
  pub subcategory_valid : IsValidTable c.by_subcategory
  pub district_valid : IsValidTable c.by_category_district
  pub category_valid : IsValidTable c.by_category

-- A candidate has support, a share of at most 1, and a width that the request reaches.
pub record IsSupported (subcategory district : Option Text) (r : CrosswalkRoute) : Type 0 where
  pub support : 3 ≤ r.support
  pub share : (0 < r.share) × (r.share ≤ 10000)
  pub of_subcategory : subcategory ≡ none → (r.width ≢ full) × (r.width ≢ category_subcategory)
  pub of_district : district ≡ none → (r.width ≢ full) × (r.width ≢ category_district)

lookup-valid :
    (key : Text) (table : Table) (e : Entry)
    → IsValidTable table
    → lookup text_discrete key table ≡ some e
    → valid_entry e ≡ true
unfolding lookup
lookup-valid key [] e v h = cc
lookup-valid key ((k, f) ∷ table) e (here, v) h = elim (text_discrete k key) [
  | yes q ↦ ground (arith, h, here)
  | no q ↦ lookup-valid key table e v (ground (arith, h))
]

valid_share : (e : Entry) → valid_entry e ≡ true → (0 < e.share) × (e.share ≤ 10000)
unfolding valid_entry
valid_share e h = (ground arith, ground arith)

module _ (py : Python) where
  -- One rung, given what its width asks of the request.
  rung-IsSupported :
      (width : Width) (reachable : Bool) (table : Table) (key : Text)
      (subcategory district : Option Text)
      → IsValidTable table
      → (reachable ≡ true → subcategory ≡ none → (width ≢ full) × (width ≢ category_subcategory))
      → (reachable ≡ true → district ≡ none → (width ≢ full) × (width ≢ category_district))
      → All (IsSupported subcategory district) (rung py width reachable table key)
  unfolding rung
  rung-IsSupported width false table key subcategory district v s d = tt
  rung-IsSupported width true table key subcategory district v s d =
      elim (Option-cases (lookup text_discrete key table)) [
        | inl e ↦ rw e tt
        | inr (f, e) ↦ rw e (kept f (valid_share f (lookup-valid key table f v e)))
      ]
    where
      kept :
          (f : Entry)
          → (0 < f.share) × (f.share ≤ 10000)
          → All
              (IsSupported subcategory district)
              (if leb 3 f.support then route_of py width f ∷ [] else [])
      kept f (low, high) = elim (Bool-cases (leb 3 f.support)) [
        | inl enough ↦ rw enough (
          record {
            support = ground (arith, enough);
            share = (low, high);
            of_subcategory = s refl;
            of_district = d refl;
          },
          tt,
        )
        | inr few ↦ rw few tt
      ]

  All-append :
      {A : Type 0} (P : A → Type 0) (xs ys : List A) → All P xs → All P ys → All P (xs ++ ys)
  All-append P [] ys h k = k
  All-append P (x ∷ xs) ys (p, h) k = (p, All-append P xs ys h k)

  -- In a crosswalk that passed its load checks, every candidate of a request has a support of at
  -- least 3 and a share above 0 and at most 1, and its width asks for a subcategory or a district
  -- only where the request has one.
  pub candidates-IsSupported :
      (c : Crosswalk) (category : Text) (subcategory district : Option Text)
      → IsLoaded c
      → All (IsSupported subcategory district) (candidates py c category subcategory district)
  unfolding candidates
  candidates-IsSupported c category subcategory district l =
      let P = IsSupported subcategory district in
      All-append P _ _
        (rung-IsSupported full (present subcategory && present district) c.by_full
          (key_of py category subcategory district) subcategory district l.full_valid
          (λ h e. absurd (ground arith)) (λ h e. absurd (ground arith)))
        (All-append P _ _
          (rung-IsSupported category_subcategory (present subcategory) c.by_subcategory
            (key_of py category subcategory none) subcategory district l.subcategory_valid
            (λ h e. absurd (ground arith)) (λ h e. (ground arith, ground arith)))
          (All-append P _ _
            (rung-IsSupported category_district (present district) c.by_category_district
              (key_of py category none district) subcategory district l.district_valid
              (λ h e. (ground arith, ground arith)) (λ h e. absurd (ground arith)))
            (rung-IsSupported category_only true c.by_category (key_of py category none none)
              subcategory district l.category_valid (λ h e. (ground arith, ground arith))
              (λ h e. (ground arith, ground arith)))))
