-- ===== src/Egress/Job/Keeps.antt =====
-- What the calls of the Sarvam client keep, its jobs and operations keep.
use janasunani.Base.{
  ℕ, zero, suc, ◌≡◌, refl, true, false, Option, some, List, [], Text, codes, arith,
}
use janasunani.Serving.Signals.{non_empty}
use janasunani.Egress.Http.{Json, null, str, num, other, Payload, field, as_text}
use janasunani.Egress.Audit.{Label, AuditEvent, resume}
use janasunani.Egress.Client.{wait_for_submission_slot, post_json, get_json, get_binary}
use janasunani.Egress.Client.Audited.{is_call}
use janasunani.Egress.Client.Keeps.{
  Keeps, Keeps->>=, Keeps-return, Keeps-raise, Keeps-Bool, Keeps-Option,
}
use janasunani.Egress.Client.State.{
  Adapter, Outside, World, sarvam_error, key_error, sarvam_poll_timeout, Call, M, audit, sleep,
}
use janasunani.Egress.Job.{
  Document, is_terminal, is_completed, poll_from, finish_job, read_digitise_result,
  read_extract_result, admit, recorded, resumable_job, submit_or_resume, run_job,
}
use janasunani.Egress.Job.Archive.{primary_markdown}

module _ (P : World → Type 0) (env : Outside) (adapter : Adapter) where
  -- The submission.
  abbrev pub KeptByPosts : Type 0
  KeptByPosts =
      (url : Text) (call : Call) (document : List ℕ)
      → Keeps P (post_json env adapter adapter.max_submission_attempts 1 url call document)

  -- The other steps from which the operations are made.
  pub record KeptByCalls : Type 0 where
    pub waits : Keeps P (wait_for_submission_slot env adapter)
    pub sleeps : (delay : ℕ) → Keeps P (sleep delay)
    pub gets :
        (url : Text) (label : Label) (call : Call) (job : Text)
        → Keeps P (get_json env adapter url label call job)
    pub fetches :
        (url : Text) (label : Label) (call : Call) (job : Text)
        → Keeps P (get_binary env adapter url label call job)
    pub notes :
        (call : Call) (event : AuditEvent) (job : Option Text) (metadata : Payload)
        → is_call event ≡ false
        → Keeps P (audit env adapter call event 0 job metadata)

  module _ (kept : KeptByCalls) where
    Keeps-is_terminal : (state : Json) → Keeps P (is_terminal state)
    Keeps-is_terminal null w h = h
    Keeps-is_terminal (str status) w h = h
    Keeps-is_terminal (num n) w h = h
    Keeps-is_terminal (other truth true text) w h = h
    Keeps-is_terminal (other truth false text) w h = h

    pub poll_from-Keeps :
        (left attempt : ℕ) (call : Call) (job : Text)
        → Keeps P (poll_from env adapter left attempt call job)
    unfolding poll_from
    poll_from-Keeps zero attempt call job = Keeps-raise P Payload sarvam_poll_timeout
    poll_from-Keeps (suc left) attempt call job = Keeps->>= P _ _ (kept.sleeps _) λ _.
        Keeps->>= P _ _ kept.waits λ _. Keeps->>= P _ _ (kept.gets _ _ _ _) λ status.
          Keeps->>= P _ _ (Keeps-is_terminal (field (codes "status") status)) λ terminal.
            Keeps-Bool P terminal _ _ (Keeps-return P status)
              (poll_from-Keeps left (suc attempt) call job)

    pub finish_job-Keeps :
        {A : Type 0} (job : Text) (call : Call) (reader : Text → Call → M A)
        → Keeps P (reader job call)
        → Keeps P (finish_job env adapter job call reader)
    unfolding finish_job
    finish_job-Keeps {A} job call reader h =
        Keeps->>= P _ _ (poll_from-Keeps adapter.max_poll_attempts 0 call job) λ status.
          Keeps-Bool P (is_completed (field (codes "status") status)) _ _ h
            (Keeps-raise P A sarvam_error)

    primary_markdown-Keeps : (archive : Text) → Keeps P (primary_markdown env archive)
    unfolding primary_markdown
    primary_markdown-Keeps archive w h = ground (arith, h)

    pub read_digitise_result-Keeps :
        (job : Text) (call : Call) → Keeps P (read_digitise_result env adapter job call)
    unfolding read_digitise_result
    read_digitise_result-Keeps job call = Keeps->>= P _ _ (kept.gets _ _ _ _) λ response.
        Keeps-Option P _ _ _ (Keeps-raise P Text sarvam_error) λ url.
          Keeps-Bool P (non_empty url) _ _
            (Keeps->>= P _ _ (kept.fetches _ _ _ _) primary_markdown-Keeps)
            (Keeps-raise P Text sarvam_error)

    pub read_extract_result-Keeps :
        (job : Text) (call : Call) → Keeps P (read_extract_result env adapter job call)
    unfolding read_extract_result
    read_extract_result-Keeps job call = kept.gets _ _ _ _

    pub admit-Keeps : Keeps P (admit env adapter)
    unfolding admit
    admit-Keeps w h = ground (arith, h)

    recorded-Keeps : (call : Call) → Keeps P (recorded env adapter call)
    unfolding recorded
    recorded-Keeps call w h = ground (arith, h)

    pub submit_or_resume-Keeps :
        {A : Type 0} (posts : KeptByPosts) (call : Call) (document : Document)
        (reader : Text → Call → M A)
        → ((job : Text) → Keeps P (reader job call))
        → Keeps P (submit_or_resume env adapter call document reader)
    unfolding submit_or_resume
    submit_or_resume-Keeps {A} posts call document reader reads =
        Keeps->>= P _ _ (recorded-Keeps call) λ job.
          Keeps-Option P (resumable_job env adapter job) _ _
            (Keeps->>= P _ _ (posts _ call document.content) λ submitted.
              Keeps-Option P (as_text (field (codes "job_id") submitted)) _ _
                (Keeps-raise P A key_error) (λ job. finish_job-Keeps job call reader (reads job)))
            λ job.
              Keeps->>= P _ _ (kept.notes call resume (some job) [] refl)
                λ _. finish_job-Keeps job call reader (reads job)

    pub run_job-Keeps :
        {A : Type 0} (posts : KeptByPosts) (call : Call) (document : Document)
        (reader : Text → Call → M A)
        → ((job : Text) → Keeps P (reader job call))
        → Keeps P (run_job env adapter call document reader)
    unfolding run_job
    run_job-Keeps posts call document reader reads =
        Keeps->>= P _ _ admit-Keeps (λ _. submit_or_resume-Keeps posts call document reader reads)
