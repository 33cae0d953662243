-- ===== src/Egress/Audit.antt =====
-- `AuditRecord` and `SqliteAuditLog` of janasunani/egress/sarvam.py: the rows of the log, newest
-- first, and the job that a later call may resume.
pub mod Resume
use janasunani.Base.{
  ℕ, Bool, true, false, ◌&&◌, ◌||◌, Option, none, some, List, [], ◌∷◌, Text, codes, text_eq,
  text_discrete, lookup, if◌then◌else◌,
}
use janasunani.Serving.Signals.{non_empty}
use janasunani.Egress.Http.{Json, null, str, num, other, Payload, field, Result, ok, err, truthy}

pub record SarvamAuditContext : Type 0 where
  pub ticket : Text
  pub stage : Text
  pub document_id : Text

pub data Operation : Type 0 where
  digitise_operation : Operation
  extract_operation : Operation
  transliterate_operation : Operation

-- The labels of the calls that reach the provider.
pub data Label : Type 0 where
  submission : Label
  poll : Label
  result_lookup : Label
  download : Label
  transliteration : Label

-- `event` of a row: `failed l` is `<l>_error`.
pub data AuditEvent : Type 0 where
  disabled : AuditEvent
  fallback : AuditEvent
  resume : AuditEvent
  succeeded : Label → AuditEvent
  failed : Label → AuditEvent
  rate_limited : Label → AuditEvent
  rate_limit_exhausted : Label → AuditEvent

pub record AuditRecord : Type 0 where
  pub ticket : Text
  pub stage : Text
  pub document_id : Text
  pub provider : Text
  pub model_id : Text
  pub bytes_sent : ℕ
  pub timestamp : Text
  pub authorization_reference : Text
  pub operation : Operation
  pub event : AuditEvent
  pub language : Text
  pub idempotency_key : Text
  pub job_id : Option Text
  pub response_metadata : Payload

abbrev pub same_operation : Operation → Operation → Bool
same_operation digitise_operation digitise_operation = true
same_operation extract_operation extract_operation = true
same_operation transliterate_operation transliterate_operation = true
same_operation _ _ = false

abbrev pub is_submission : AuditEvent → Bool
is_submission (succeeded submission) = true
is_submission _ = false

abbrev pub is_job : Text → Option Text → Bool
is_job job none = false
is_job job (some other_job) = text_eq other_job job

-- The first `SELECT`: the newest submission of this call that has a job id.
unfoldable pub latest_submission :
    SarvamAuditContext → Operation → Text → List AuditRecord → Option Text
latest_submission context operation key [] = none
latest_submission context operation key (row ∷ rows) =
    let earlier = latest_submission context operation key rows in
    if text_eq row.ticket context.ticket
      && (text_eq row.stage context.stage
          && (text_eq row.document_id context.document_id
              && (same_operation row.operation operation
                  && (is_submission row.event && text_eq row.idempotency_key key))))
    then elim row.job_id [ none ↦ earlier | some job ↦ some job ]
    else earlier

abbrev pub is_unsuccessful : Text → Bool
is_unsuccessful status =
    text_eq status (codes "failed")
    || (text_eq status (codes "rejected") || text_eq status (codes "partially_completed"))

-- What one row says of the job: `none` that it says nothing, else whether the job may be resumed.
-- To look a status up in the set raises `TypeError` where it cannot be hashed.
pub data Says : Type 0 where
  nothing : Says
  resumable : Says
  spent : Says
  unhashable : Says

abbrev pub status_says : Json → Says
status_says null = nothing
status_says (str status) =
    if is_unsuccessful status then spent else if non_empty status then resumable else nothing
status_says (num n) = if truthy (num n) then resumable else nothing
status_says (other truth hashable text) =
    if hashable then if truth then resumable else nothing else unhashable

-- The loop over the second `SELECT`: the rows of the job under the key, newest first.
unfoldable pub read_statuses : Text → Text → List AuditRecord → Result Text (Option Text)
read_statuses job key [] = ok (some job)
read_statuses job key (row ∷ rows) =
    let earlier = read_statuses job key rows in
    if is_job job row.job_id && text_eq row.idempotency_key key
    then elim (status_says (field (codes "status") row.response_metadata)) [
      | nothing ↦ earlier
      | resumable ↦ ok (some job)
      | spent ↦ ok none
      | unhashable ↦ err (codes "TypeError")
    ]
    else earlier

unfoldable pub submitted_job :
    List AuditRecord → SarvamAuditContext → Operation → Text → Result Text (Option Text)
submitted_job log context operation key = elim (latest_submission context operation key log) [
  | none ↦ ok none
  | some job ↦ read_statuses job key log
]
