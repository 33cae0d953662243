-- ===== src/Egress/Provider.antt =====
-- The operations of `SarvamVisionAdapter` in janasunani/egress/sarvam.py: `digitise`, `extract`, and
-- `digitise_or_fallback`, which reports the engine that produced the text.
pub mod Keeps
pub mod Outcome
pub mod Bounds
use janasunani.Base.{
  ℕ, Bool, true, false, not, Option, none, some, List, [], ◌∷◌, ◌++◌, Text, codes, if◌then◌else◌,
}
use janasunani.Serving.Signals.{present}
use janasunani.Egress.Http.{Json, str, Payload, Result, ok, err}
use janasunani.Egress.Audit.{
  SarvamAuditContext, Operation, AuditEvent, digitise_operation, extract_operation, disabled,
  fallback,
}
use janasunani.Egress.Schema.{Node, validate_extract_schema}
use janasunani.Egress.Client.State.{
  Adapter, Outside, World, Fault, value_error, Call, M, ◌>>=◌, ◌>>◌, return, raise, rescue, audit,
}
use janasunani.Egress.Job.{
  Document, operation_name, is_sarvam_error, fault_name, run_job, read_digitise_result,
  read_extract_result,
}

pub record DigitiseOutcome : Type 0 where
  pub text : Text
  pub ocr_model : Text

-- `f"{provider}:{model_id}"`
abbrev pub engine_of : Adapter → Text
engine_of adapter = adapter.route.provider ++ (codes ":" ++ adapter.route.model_id)

-- A schema as the validator reads it, with its canonical JSON.
pub record ExtractSchema : Type 0 where
  pub root : Node
  pub canonical : Text

module _ (env : Outside) (adapter : Adapter) where
  -- `_idempotency_key`
  unfoldable pub idempotency_key : SarvamAuditContext → Operation → Document → Payload → Text
  idempotency_key context operation document form = env.digest (
      context.ticket
      ∷ context.document_id
      ∷ context.stage
      ∷ operation_name operation
      ∷ adapter.route.provider
      ∷ adapter.route.model_id
      ∷ adapter.route.endpoint
      ∷ document.filename
      ∷ env.dumps form
      ∷ env.digest (document.content ∷ [])
      ∷ [])

  abbrev pub digitise_form : Text → Payload
  digitise_form language =
      (codes "language", str language) ∷ (codes "output_format", str (codes "md")) ∷ []

  unfoldable pub digitise_call : SarvamAuditContext → Text → Document → Call
  unfolding idempotency_key
  digitise_call context language document = record {
    context = context;
    operation = digitise_operation;
    language = language;
    idempotency_key = idempotency_key context digitise_operation document (digitise_form language);
  }

  unfoldable pub digitise : Document → Text → SarvamAuditContext → M Text
  unfolding digitise_call
  digitise document language context =
      run_job env adapter (digitise_call context language document) document
        (read_digitise_result env adapter)

  -- The local engine, after a row that says why; what it raises leaves the adapter.
  abbrev pub on_host : Call → AuditEvent → Payload → (World → Result Fault Text) → M DigitiseOutcome
  on_host call event metadata local = do
    audit env adapter call event 0 none metadata
    text ← λ w. (local w, w)
    return (record { text = text; ocr_model = codes "pytesseract" })

  abbrev pub hosted : Call → Document → M DigitiseOutcome
  hosted call document = do
    text ← run_job env adapter call document (read_digitise_result env adapter)
    return (record { text = text; ocr_model = engine_of adapter })

  unfoldable pub digitise_or_fallback :
      Document → Text → SarvamAuditContext → (World → Result Fault Text) → M DigitiseOutcome
  unfolding digitise_call
  digitise_or_fallback document language context local =
      let call = digitise_call context language document in
      elim adapter.enabled [
        | false ↦ on_host call disabled [] local
        | true ↦ rescue (hosted call document) λ fault. elim (is_sarvam_error fault) [
          | true ↦ on_host call fallback ((codes "reason", str (fault_name fault)) ∷ []) local
          | false ↦ raise fault
        ]
      ]

  extract_form : Text → Option ExtractSchema → Option Text → Payload
  extract_form language schema config_id =
      (codes "language", str language) ∷ (codes "output_format", str (codes "json")) ∷ elim schema [
        | some s ↦ (codes "schema", str s.canonical) ∷ []
        | none ↦ elim config_id [ none ↦ [] | some config ↦ (codes "config_id", str config) ∷ [] ]
      ]

  unfoldable pub extract_call :
      SarvamAuditContext → Text → Document → Option ExtractSchema → Option Text → Call
  unfolding idempotency_key extract_form
  extract_call context language document schema config_id = record {
    context = context;
    operation = extract_operation;
    language = language;
    idempotency_key =
        idempotency_key context extract_operation document (extract_form language schema config_id);
  }

  abbrev pub is_valid_schema : Option ExtractSchema → Bool
  is_valid_schema none = true
  is_valid_schema (some schema) = validate_extract_schema schema.root

  abbrev pub same : Bool → Bool → Bool
  same true b = b
  same false b = not b

  -- Exactly one of the schema and the id of a stored configuration.
  unfoldable pub extract :
      Document → Text → SarvamAuditContext → Option ExtractSchema → Option Text → M Payload
  unfolding extract_call
  extract document language context schema config_id =
      elim (same (present schema) (present config_id)) [
        | true ↦ raise value_error
        | false ↦ elim (is_valid_schema schema) [
          | false ↦ raise value_error
          | true ↦
              run_job env adapter (extract_call context language document schema config_id) document
                (read_extract_result env adapter)
        ]
      ]
