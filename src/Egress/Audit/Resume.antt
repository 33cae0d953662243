-- ===== src/Egress/Audit/Resume.antt =====
-- The log of a submission makes its job the one to resume.
use janasunani.Base.{
  ℕ, ◌≡◌, refl, Bool, true, Option, none, some, List, [], ◌∷◌, Text, codes, text_eq, text_eq_refl,
  text_discrete, lookup, insert, lookup-insert, filterb, arith,
}
use janasunani.Egress.Http.{
  Json, num, Payload, Result, ok, err, field, as_text, is_safe_key, response_metadata,
}
use janasunani.Egress.Audit.{
  SarvamAuditContext, Operation, AuditRecord, Says, nothing, resumable, spent, unhashable,
  status_says, submitted_job, latest_submission, read_statuses, same_operation, succeeded,
  submission,
}

lookup-filterb :
    (key : Text) (p : Text × Json → Bool)
    → ((value : Json) → p (key, value) ≡ true)
    → (payload : Payload)
    → lookup text_discrete key (filterb p payload) ≡ lookup text_discrete key payload
unfolding lookup
lookup-filterb key p h [] = refl
lookup-filterb key p h ((k, v) ∷ payload) = ground (arith, lookup-filterb key p h payload, h v)

-- What the audit keeps of an answer says of the job what the answer said.
pub field-response_metadata :
    (payload : Payload) (http_status : ℕ)
    → field (codes "status") (response_metadata payload http_status)
      ≡ field (codes "status") payload
unfolding response_metadata text_eq
field-response_metadata payload http_status = ground (
  arith,
  lookup-insert text_discrete (codes "http_status") (codes "status") (num http_status)
      (filterb is_safe_key payload),
  lookup-filterb (codes "status") is_safe_key (λ value. refl) payload,
)

-- The number of the attempt hides nothing of it.
pub field-attempt :
    (payload : Payload) (attempt : ℕ)
    → field (codes "status") (insert text_discrete (codes "attempt") (num attempt) payload)
      ≡ field (codes "status") payload
field-attempt payload attempt =
    ground
      (arith, lookup-insert text_discrete (codes "attempt") (codes "status") (num attempt) payload)

-- The newest row is that of an accepted submission.
abbrev pub IsSubmitted : SarvamAuditContext → Operation → Text → Payload → List AuditRecord → Type 0
IsSubmitted context operation key payload [] = ⊥
IsSubmitted context operation key payload (row ∷ rows) =
    (row.ticket ≡ context.ticket)
    × (row.stage ≡ context.stage)
    × (row.document_id ≡ context.document_id)
    × (row.operation ≡ operation)
    × (row.event ≡ succeeded submission)
    × (row.idempotency_key ≡ key)
    × (row.job_id ≡ as_text (field (codes "job_id") payload))
    × (field (codes "status") row.response_metadata ≡ field (codes "status") payload)

-- What a status says decides whether the job is resumed, unless it says nothing.
abbrev pub Resumes : Says → Text → Result Text (Option Text) → Type 0
Resumes nothing job r = Unit {0}
Resumes resumable job r = r ≡ ok (some job)
Resumes spent job r = r ≡ ok none
Resumes unhashable job r = r ≡ err (codes "TypeError")

same_operation_refl : (operation : Operation) → same_operation operation operation ≡ true
same_operation_refl operation = ground arith

pub submitted_job-Resumes :
    (context : SarvamAuditContext) (operation : Operation) (key job : Text) (payload : Payload)
    (log : List AuditRecord)
    → IsSubmitted context operation key payload log
    → as_text (field (codes "job_id") payload) ≡ some job
    → Resumes
        (status_says (field (codes "status") payload))
        job
        (submitted_job log context operation key)
unfolding submitted_job latest_submission read_statuses
submitted_job-Resumes context operation key job payload [] h e = absurd h
submitted_job-Resumes context operation key job payload (row ∷ rows) h e = ground (
  arith,
  text_eq_refl context.ticket,
  text_eq_refl context.stage,
  text_eq_refl context.document_id,
  text_eq_refl key,
  text_eq_refl job,
  same_operation_refl operation,
)
