-- ===== src/Egress/Job.antt =====
-- The asynchronous job of `SarvamVisionAdapter` in janasunani/egress/sarvam.py: submit or resume,
-- poll to a terminal status, and read the result.
pub mod Archive
pub mod Keeps
pub mod Admitted
pub mod Faults
pub mod Outcome
pub mod Bounds
pub mod Resumed
pub mod Live
use janasunani.Base.{
  ℕ, zero, suc, ◌-◌, Bool, true, false, not, ◌&&◌, ◌||◌, Option, none, some, List, [], ◌∷◌, ◌++◌,
  Text, codes, if◌then◌else◌, text_eq, ◌==◌,
}
use janasunani.Serving.Signals.{non_empty, present}
use janasunani.Egress.Http.{
  Json, null, str, num, other, Payload, Result, ok, err, field, as_text, or_else,
}
use janasunani.Egress.Audit.{
  SarvamAuditContext, Operation, digitise_operation, extract_operation, transliterate_operation,
  Label, poll, result_lookup, download, AuditEvent, resume, disabled, fallback, submitted_job,
}
use janasunani.Egress.Route.{egress_permitted}
use janasunani.Egress.Schema.{Fields, validate_extract_schema}
use janasunani.Egress.Client.{wait_for_submission_slot, post_json, get_json, get_binary}
use janasunani.Egress.Client.State.{
  Adapter, Outside, World, Fault, sarvam_error, sarvam_disabled, sarvam_governance_error,
  sarvam_poll_timeout, value_error, type_error, key_error, Call, M, ◌>>=◌, ◌>>◌, return, raise,
  audit, sleep, join,
}
use janasunani.Egress.Job.Archive.{primary_markdown}

-- `TERMINAL_STATUSES`
abbrev pub is_terminal_status : Text → Bool
is_terminal_status status =
    text_eq status (codes "completed")
    || (text_eq status (codes "partially_completed")
        || (text_eq status (codes "failed") || text_eq status (codes "rejected")))

-- `state in TERMINAL_STATUSES`, which raises `TypeError` for what cannot be hashed.
abbrev pub is_terminal : Json → M Bool
is_terminal null = return false
is_terminal (str status) = return (is_terminal_status status)
is_terminal (num n) = return false
is_terminal (other truth true text) = return false
is_terminal (other truth false text) = raise type_error

abbrev pub is_completed : Json → Bool
is_completed (str status) = text_eq status (codes "completed")
is_completed _ = false

abbrev pub operation_name : Operation → Text
operation_name digitise_operation = codes "digitise"
operation_name extract_operation = codes "extract"
operation_name transliterate_operation = codes "transliterate"

abbrev pub is_sarvam_error : Fault → Bool
is_sarvam_error sarvam_error = true
is_sarvam_error sarvam_disabled = true
is_sarvam_error sarvam_governance_error = true
is_sarvam_error sarvam_poll_timeout = true
is_sarvam_error _ = false

abbrev pub fault_name : Fault → Text
fault_name sarvam_error = codes "SarvamError"
fault_name sarvam_disabled = codes "SarvamDisabled"
fault_name sarvam_governance_error = codes "SarvamGovernanceError"
fault_name sarvam_poll_timeout = codes "SarvamPollTimeout"
fault_name value_error = codes "ValueError"
fault_name type_error = codes "TypeError"
fault_name _ = codes "Exception"

-- A document as it is sent: its name and its bytes.
pub record Document : Type 0 where
  pub filename : Text
  pub content : List ℕ

module _ (env : Outside) (adapter : Adapter) where
  abbrev pub job_url : Text → Text → Text
  job_url job path =
      adapter.route.endpoint ++ (codes "/doc-ai/v1/job/" ++ (job ++ (codes "/" ++ path)))

  -- `_poll`, with the attempts left and the number of the attempt.
  unfoldable pub poll_from : ℕ → ℕ → Call → Text → M Payload
  poll_from zero attempt call job = raise sarvam_poll_timeout
  poll_from (suc left) attempt call job = do
    sleep (if attempt == 0 then 0 else adapter.poll_interval)
    wait_for_submission_slot env adapter
    status ← get_json env adapter (job_url job (codes "status")) poll call job
    terminal ← is_terminal (field (codes "status") status)
    elim terminal [ true ↦ return status | false ↦ poll_from left (suc attempt) call job ]

  -- `_finish_job`
  unfoldable pub finish_job : {A : Type 0} → Text → Call → (Text → Call → M A) → M A
  finish_job job call reader = do
    status ← poll_from adapter.max_poll_attempts 0 call job
    elim (is_completed (field (codes "status") status)) [
      | true ↦ reader job call
      | false ↦ raise sarvam_error
    ]

  -- `_read_digitise_result`
  unfoldable pub read_digitise_result : Text → Call → M Text
  read_digitise_result job call = do
    response ← get_json env adapter (job_url job (codes "download-url")) result_lookup call job
    elim (as_text
        (or_else (field (codes "download_url") response) (field (codes "url") response))) [
          | none ↦ raise sarvam_error
          | some url ↦ elim (non_empty url) [
            | false ↦ raise sarvam_error
            | true ↦ do
              archive ← get_binary env adapter url download call job
              primary_markdown env archive
          ]
        ]

  -- `_read_extract_result`
  unfoldable pub read_extract_result : Text → Call → M Payload
  read_extract_result job call =
      get_json env adapter (job_url job (codes "results")) result_lookup call job

  -- The first three guards of `_run_job`.
  unfoldable pub admit : M (Unit {0})
  admit =
      if not adapter.enabled
      then raise sarvam_disabled
      else if not (egress_permitted adapter.route)
      then raise sarvam_governance_error
      else if not (non_empty adapter.api_key)
      then raise sarvam_error
      else return tt

  -- `self.audit_log.submitted_job(...)`; its one error is a `TypeError`.
  unfoldable pub recorded : Call → M (Option Text)
  recorded call w = elim (submitted_job w.log call.context call.operation call.idempotency_key) [
    | ok job ↦ (ok job, w)
    | err name ↦ (err type_error, w)
  ]

  -- `if recorded_job`
  abbrev pub resumable_job : Option Text → Option Text
  resumable_job none = none
  resumable_job (some job) = if non_empty job then some job else none

  -- `_run_job` from the idempotency key on.
  unfoldable pub submit_or_resume : {A : Type 0} → Call → Document → (Text → Call → M A) → M A
  submit_or_resume call document reader = do
    job ← recorded call
    elim (resumable_job job) [
      | some job ↦ do audit env adapter call resume 0 (some job) []; finish_job job call reader
      | none ↦ do
        submitted ←
            post_json env adapter adapter.max_submission_attempts 1
              (adapter.route.endpoint ++ (codes "/doc-ai/v1/job/" ++ operation_name call.operation))
              call document.content
        elim (as_text (field (codes "job_id") submitted)) [
          | none ↦ raise key_error
          | some job ↦ finish_job job call reader
        ]
    ]

  -- `_run_job`
  unfoldable pub run_job : {A : Type 0} → Call → Document → (Text → Call → M A) → M A
  run_job call document reader = admit >> submit_or_resume call document reader
