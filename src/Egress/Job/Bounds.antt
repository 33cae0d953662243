-- ===== src/Egress/Job/Bounds.antt =====
-- How many requests a job sends at most.
use janasunani.Base.{
  ℕ, zero, suc, ◌+◌, true, false, some, [], Text, codes, Bool-cases, inl, inr, arith,
}
use janasunani.Serving.Signals.{non_empty}
use janasunani.Egress.Http.{Json, null, str, num, other, Payload, field, as_text, or_else}
use janasunani.Egress.Audit.{download, resume}
use janasunani.Egress.Client.Costs.{
  Costs, Costs->>=, Costs-within, Costs-Bool, Costs-Option, Costs-raise, wait-Costs, get_json-Costs,
  get_binary-Costs, post_json-Costs,
}
use janasunani.Egress.Client.State.{
  Adapter, Outside, sarvam_error, key_error, sarvam_poll_timeout, Call, M, audit,
}
use janasunani.Egress.Job.{
  Document, is_terminal, is_completed, poll_from, finish_job, read_digitise_result, recorded,
  resumable_job, submit_or_resume, run_job,
}
use janasunani.Egress.Job.Admitted.{may_send, admit->>=}
use janasunani.Egress.Job.Archive.{primary_markdown}

Costs-is_terminal : (state : Json) → Costs 0 (is_terminal state)
Costs-is_terminal null w = omega arith
Costs-is_terminal (str status) w = omega arith
Costs-is_terminal (num n) w = omega arith
Costs-is_terminal (other truth true text) w = omega arith
Costs-is_terminal (other truth false text) w = omega arith

module _ (env : Outside) (adapter : Adapter) where
  poll_from-Costs :
      (left attempt : ℕ) (call : Call) (job : Text)
      → Costs left (poll_from env adapter left attempt call job)
  unfolding poll_from
  poll_from-Costs zero attempt call job = Costs-raise Payload 0 sarvam_poll_timeout
  poll_from-Costs (suc left) attempt call job =
      Costs-within 0 (suc left) (suc left) _ _ (omega arith) (λ w. omega arith)
        λ _. Costs-within 0 (suc left) (suc left) _ _ (omega arith) (wait-Costs env adapter) λ _.
          Costs-within 1 left (suc left) _ _ (omega arith) (get_json-Costs env adapter _ _ _ _)
            λ status.
              Costs-within 0 left left _ _ (omega arith)
                (Costs-is_terminal (field (codes "status") status))
                λ terminal.
                  Costs-Bool left terminal _ _ (λ w. omega arith)
                    (poll_from-Costs left (suc attempt) call job)

  finish_job-Costs :
      {A : Type 0} (job : Text) (call : Call) (reader : Text → Call → M A)
      → Costs 2 (reader job call)
      → Costs (adapter.max_poll_attempts + 2) (finish_job env adapter job call reader)
  unfolding finish_job
  finish_job-Costs {A} job call reader h =
      Costs->>= adapter.max_poll_attempts 2 _ _
        (poll_from-Costs adapter.max_poll_attempts 0 call job)
        λ status.
          Costs-Bool 2 (is_completed (field (codes "status") status)) _ _ h
            (Costs-raise A 2 sarvam_error)

  primary_markdown-Costs : (archive : Text) → Costs 0 (primary_markdown env archive)
  unfolding primary_markdown
  primary_markdown-Costs archive w = ground arith

  pub read_digitise_result-Costs :
      (job : Text) (call : Call) → Costs 2 (read_digitise_result env adapter job call)
  unfolding read_digitise_result
  read_digitise_result-Costs job call =
      Costs->>= 1 1 _ _ (get_json-Costs env adapter _ _ _ _) λ response.
        Costs-Option 1
          (as_text (or_else (field (codes "download_url") response) (field (codes "url") response)))
          _ _ (Costs-raise Text 1 sarvam_error)
          λ url.
            Costs-Bool 1 (non_empty url) _ _
              (Costs->>= 1 0 _ _ (get_binary-Costs env adapter url download call job)
                primary_markdown-Costs)
              (Costs-raise Text 1 sarvam_error)

  recorded-Costs : (call : Call) → Costs 0 (recorded env adapter call)
  unfolding recorded
  recorded-Costs call w = ground arith

  resume-Costs :
      (call : Call) (job : Text) → Costs 0 (audit env adapter call resume 0 (some job) [])
  unfolding audit
  resume-Costs call job w = omega arith

  pub run_job-Costs :
      {A : Type 0} (call : Call) (document : Document) (reader : Text → Call → M A)
      → ((job : Text) → Costs 2 (reader job call))
      → Costs
          (adapter.max_submission_attempts + (adapter.max_poll_attempts + 2))
          (run_job env adapter call document reader)
  unfolding run_job submit_or_resume
  run_job-Costs {A} call document reader reads w =
      let polls : ℕ = adapter.max_poll_attempts + 2 in
      let total : ℕ = adapter.max_submission_attempts + polls in
      rw (admit->>= env adapter _ w) (elim (Bool-cases (may_send adapter)) [
        | inl may ↦ rw may (
            Costs-within 0 total total (recorded env adapter call) _ (omega arith)
              (recorded-Costs call)
              (λ job.
                Costs-Option total (resumable_job env adapter job) _ _
                  (Costs->>= adapter.max_submission_attempts polls _ _
                    (post_json-Costs env adapter _ _ _ _ _)
                    (λ submitted.
                      Costs-Option polls (as_text (field (codes "job_id") submitted)) _ _
                        (Costs-raise A polls key_error)
                        (λ job. finish_job-Costs job call reader (reads job))))
                  (λ job.
                    Costs-within 0 polls total _ _ (omega arith) (resume-Costs call job)
                      (λ _. finish_job-Costs job call reader (reads job))))
              w)
        | inr not' ↦ rw not' (omega arith)
      ])
