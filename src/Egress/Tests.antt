-- ===== src/Egress/Tests.antt =====
-- The egress client at concrete calls and routes.
use janasunani.Base.{ℕ, suc, ◌≡◌, ◌≤◌, ◌↔◌, ◌<◌, true, false, some, List, [], ◌∷◌, codes, arith}
use janasunani.Egress.Schema.{
  Fields, node, no_fields, field, no_items, items, object_type, array_type, primitive_type,
  has_fields, validate_extract_schema,
}
use janasunani.Egress.Schema.Depth.{depth_fields, faults_fields, validate_extract_schema_lem}
use janasunani.Egress.Rate.{run_slots}
use janasunani.Egress.Rate.Paced.{IsPaced, run_slots-IsPaced}
use janasunani.Egress.Route.{ProviderRoute, GovernanceControl}
use janasunani.Egress.Route.Permitted.{IsGoverned, egress_basis-IsGoverned}

abbrev pub unverified : GovernanceControl
unverified = record { statement = codes "not verified"; verified = false }

abbrev pub vision_route : ProviderRoute
vision_route = record {
  name = codes "sarvam-vision";
  provider = codes "sarvam";
  model_id = codes "vision";
  endpoint = codes "https://api.sarvam.ai";
  trust_tier = codes "external";
  data_class = codes "raw grievance document bytes";
  authorization_reference = codes "order";
  retention_terms = unverified;
  encryption_in_transit = unverified;
  encryption_at_rest = unverified;
  audit_policy = codes "append one record";
  fallback = codes "pytesseract";
  accepted_risk = some (record {
    authority = codes "secretary";
    basis = codes "sign-off";
    scope = codes "corpus";
    accepted_on = codes "2026-08-07";
  });
}

abbrev three_calls : List (ℕ × ℕ)
three_calls = (1, 0) ∷ (2, 0) ∷ (3, 1) ∷ []

positive_limit : 0 < 2
positive_limit = omega arith

run_slots-IsPaced_example : IsPaced 60 2 (run_slots 60 2 three_calls [] [] 5)
run_slots-IsPaced_example = run_slots-IsPaced 60 2 three_calls 5 positive_limit

egress_basis-IsGoverned_example : IsGoverned vision_route
egress_basis-IsGoverned_example = egress_basis-IsGoverned vision_route

abbrev grievance_fields : Fields
grievance_fields =
    field (codes "issues")
      (node array_type true no_fields (
        items (
          node object_type true
            (field (codes "text") (node primitive_type true no_fields no_items) no_fields)
            no_items)))
      no_fields

validate_extract_schema_lem_example :
    (validate_extract_schema (node object_type true grievance_fields no_items) ≡ true) ↔ (
      (has_fields grievance_fields ≡ true)
      × (suc (depth_fields grievance_fields) ≤ 4)
      × (faults_fields grievance_fields ≡ 0))
validate_extract_schema_lem_example = validate_extract_schema_lem true grievance_fields no_items
