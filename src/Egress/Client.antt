-- ===== src/Egress/Client.antt =====
-- The calls of `SarvamVisionAdapter` in janasunani/egress/sarvam.py: the audit row of each, the slot
-- that it waits for, the retries of a submission, and the readers of a reply.
pub mod State
pub mod Chain
pub mod Costs
pub mod Keeps
pub mod Audited
use janasunani.Base.{
  ℕ, zero, suc, ◌+◌, ◌*◌, ◌^◌, ◌-◌, Bool, true, false, Option, none, some, List, [], ◌∷◌, ◌++◌,
  Text, codes, if◌then◌else◌, min, max, ◌==◌, text_discrete, insert, length,
}
use janasunani.Egress.Http.{
  Json, str, num, Payload, RetryAfter, no_number, not_positive, milliseconds, HttpResponse, Reply,
  raised, responded, Request, post, get, Result, ok, err, field, as_text, is_success, json_response,
  response_metadata,
}
use janasunani.Egress.Audit.{
  SarvamAuditContext, Operation, Label, submission, AuditEvent, succeeded, failed, rate_limited,
  rate_limit_exhausted, AuditRecord,
}
use janasunani.Egress.Rate.{wait_for_slot}
use State.{
  Adapter, Outside, World, Fault, sarvam_error, assertion_error, Call, M, ◌>>=◌, ◌>>◌, return,
  raise, audit, sleep, send,
}

-- Milliseconds.
abbrev pub max_retry_delay : ℕ
max_retry_delay = 60000

abbrev pub submission_window : ℕ
submission_window = 60000

abbrev pub vision_submissions_per_minute : ℕ
vision_submissions_per_minute = 10

module _ (env : Outside) (adapter : Adapter) where
  -- `_wait_for_submission_slot`
  unfoldable pub wait_for_submission_slot : M (Unit {0})
  wait_for_submission_slot w =
      let (times, grant) =
        wait_for_slot submission_window vision_submissions_per_minute (w.now + env.lag w)
          (env.slack w) w.submission_times in
      (ok tt, record w { submission_times = times; now = grant })

  -- `_retry_delay_seconds`
  unfoldable pub retry_delay : RetryAfter → ℕ → ℕ
  retry_delay no_number attempt =
      min max_retry_delay (adapter.submission_backoff * 2 ^ (attempt - 1))
  retry_delay not_positive attempt = 0
  retry_delay (milliseconds delay) attempt = min max_retry_delay delay

  abbrev pub error_metadata : Text → Payload
  error_metadata name = (codes "error", str name) ∷ []

  abbrev pub attempt_metadata : Text → ℕ → Payload
  attempt_metadata name attempt = (codes "error", str name) ∷ (codes "attempt", num attempt) ∷ []

  abbrev pub or_job : Option Text → Option Text → Option Text
  or_job none job = job
  or_job (some returned) job = some returned

  -- What `_post_json` does with a reply that is no rate limit: a payload, or an error.
  unfoldable pub accept_submission : Call → ℕ → ℕ → HttpResponse → M Payload
  accept_submission call size attempt response = elim (json_response response) [
    | err name ↦ do
      audit env adapter call (failed submission) size none (attempt_metadata name attempt)
      raise sarvam_error
    | ok payload ↦ do
      audit env adapter call (succeeded submission) size (as_text (field (codes "job_id") payload))
          (insert text_discrete (codes "attempt") (num attempt)
            (response_metadata payload response.status_code))
      elim (as_text (field (codes "job_id") payload)) [
        | none ↦ raise sarvam_error
        | some job ↦ return payload
      ]
  ]

  -- The row of a reply with status 429.
  unfoldable pub audit_rate_limit : Call → ℕ → ℕ → RetryAfter → Bool → M (Unit {0})
  audit_rate_limit call size attempt retry_after exhausted =
      audit env adapter call
        (if exhausted then rate_limit_exhausted submission else rate_limited submission) size none
        ((codes "http_status", num 429)
          ∷ (codes "attempt", num attempt)
          ∷ (codes "retry_after_seconds", num (retry_delay retry_after attempt))
          ∷ [])

  -- The body of the loop in `_post_json` once the transport has answered; `again` is the rest of it.
  unfoldable pub on_reply : M Payload → ℕ → Call → List ℕ → Reply → M Payload
  unfolding accept_submission audit_rate_limit
  on_reply again attempt call document (raised name) = do
    audit env adapter call (failed submission) (length document) none
        (attempt_metadata name attempt)
    raise sarvam_error
  on_reply again attempt call document (responded response) = elim (response.status_code == 429) [
    | true ↦ do
      audit_rate_limit call (length document) attempt response.retry_after
          (attempt == adapter.max_submission_attempts)
      elim (attempt == adapter.max_submission_attempts) [
        | true ↦ raise sarvam_error
        | false ↦ do sleep (retry_delay response.retry_after attempt); again
      ]
    | false ↦ accept_submission call (length document) attempt response
  ]

  -- `_post_json` with the label of a submission: the loop from `attempt`, with the attempts left.
  unfoldable pub post_json : ℕ → ℕ → Text → Call → List ℕ → M Payload
  post_json zero attempt url call document = raise assertion_error
  post_json (suc left) attempt url call document = do
    wait_for_submission_slot
    reply ← send env (post url document)
    on_reply (post_json left (suc attempt) url call document) attempt call document reply

  -- `_get_json`
  unfoldable pub get_json : Text → Label → Call → Text → M Payload
  get_json url label call job = do
    reply ← send env (get url)
    elim reply [
      | raised name ↦ do
        audit env adapter call (failed label) 0 (some job) (error_metadata name)
        raise sarvam_error
      | responded response ↦ elim (json_response response) [
        | err name ↦ do
          audit env adapter call (failed label) 0 (some job) (error_metadata name)
          raise sarvam_error
        | ok payload ↦ do
          audit env adapter call (succeeded label) 0 (some job)
              (response_metadata payload response.status_code)
          return payload
      ]
    ]

  -- `_get_binary`
  unfoldable pub get_binary : Text → Label → Call → Text → M Text
  get_binary url label call job = do
    reply ← send env (get url)
    elim reply [
      | raised name ↦ do
        audit env adapter call (failed label) 0 (some job) (error_metadata name)
        raise sarvam_error
      | responded response ↦ elim (is_success response.status_code) [
        | false ↦ do
          audit env adapter call (failed label) 0 (some job) (error_metadata (codes "SarvamError"))
          raise sarvam_error
        | true ↦ do
          audit env adapter call (succeeded label) 0 (some job)
              ((codes "http_status", num response.status_code) ∷ [])
          return response.content
      ]
    ]
