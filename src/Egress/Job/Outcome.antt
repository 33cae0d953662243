-- ===== src/Egress/Job/Outcome.antt =====
-- A job ends with its result or with one of its own faults.
use janasunani.Base.{
  ℕ, zero, suc, ◌≡◌, ◌<◌, refl, Bool, true, false, Option, none, some, inl, inr, Text, codes,
  Bool-cases, arith,
}
use janasunani.Serving.Signals.{non_empty, present}
use janasunani.Egress.Http.{Json, null, str, num, other, field, as_text, or_else}
use janasunani.Egress.Audit.{download}
use janasunani.Egress.Client.{get_binary}
use janasunani.Egress.Client.State.{
  Adapter, Outside, Fault, sarvam_error, key_error, Call, M, ◌>>=◌, raise, audit,
}
use janasunani.Egress.Job.{
  Document, is_terminal, is_completed, poll_from, finish_job, read_digitise_result,
  read_extract_result, recorded, resumable_job, submit_or_resume, run_job,
}
use janasunani.Egress.Job.Admitted.{may_send, admit->>=}
use janasunani.Egress.Job.Archive.{primary_markdown}
use janasunani.Egress.Job.Faults.{
  IsJobFault, Ends, Any, Ends->>=, HasJob, wait-Ends, get_json-Ends, get_binary-Ends,
  post_json-Ends,
}

Ends-Bool :
    {A : Type 0} (Q : A → Type 0) (b : Bool) (x y : M A)
    → Ends Q x
    → Ends Q y
    → Ends Q (elim b [ true ↦ x | false ↦ y ])
Ends-Bool Q true x y hx hy = hx
Ends-Bool Q false x y hx hy = hy

Ends-Option :
    {A B : Type 0} (Q : A → Type 0) (o : Option B) (x : M A) (f : B → M A)
    → Ends Q x
    → ((b : B) → Ends Q (f b))
    → Ends Q (elim o [ none ↦ x | some b ↦ f b ])
Ends-Option Q none x f hx hf = hx
Ends-Option Q (some b) x f hx hf = hf b

Ends-raise : (A : Type 0) (e : Fault) → IsJobFault e → Ends {A = A} Any (raise e)
Ends-raise A e h w = h

Ends-is_terminal : (state : Json) → Ends Any (is_terminal state)
Ends-is_terminal null w = tt
Ends-is_terminal (str status) w = tt
Ends-is_terminal (num n) w = tt
Ends-is_terminal (other truth true text) w = tt
Ends-is_terminal (other truth false text) w = inr (inl refl)

module _ (env : Outside) (adapter : Adapter) where
  poll_from-Ends :
      (left attempt : ℕ) (call : Call) (job : Text)
      → Ends Any (poll_from env adapter left attempt call job)
  unfolding poll_from
  poll_from-Ends zero attempt call job = λ w. inl refl
  poll_from-Ends (suc left) attempt call job =
      Ends->>= Any Any _ _ (λ w. tt)
        λ _ _. Ends->>= Any Any _ _ (wait-Ends env adapter) λ _ _.
          Ends->>= Any Any _ _ (get_json-Ends env adapter _ _ _ _) λ status _.
            Ends->>= Any Any _ _ (Ends-is_terminal (field (codes "status") status)) λ terminal _.
              Ends-Bool Any terminal _ _ (λ w. tt) (poll_from-Ends left (suc attempt) call job)

  primary_markdown-Ends : (archive : Text) → Ends Any (primary_markdown env archive)
  unfolding primary_markdown
  primary_markdown-Ends archive w = ground arith

  archive-Ends :
      (url job : Text) (call : Call)
      → Ends Any (elim (non_empty url) as (λ _. M Text) [
        | false ↦ raise sarvam_error
        | true ↦ get_binary env adapter url download call job >>= primary_markdown env
      ])
  archive-Ends url job call =
      Ends-Bool Any (non_empty url)
        (get_binary env adapter url download call job >>= primary_markdown env) (raise sarvam_error)
        (Ends->>= Any Any (get_binary env adapter url download call job) (primary_markdown env)
          (get_binary-Ends env adapter url download call job)
          (λ archive _. primary_markdown-Ends archive))
        (Ends-raise Text sarvam_error (inl refl))

  pub read_digitise_result-Ends :
      (job : Text) (call : Call) → Ends Any (read_digitise_result env adapter job call)
  unfolding read_digitise_result
  read_digitise_result-Ends job call =
      Ends->>= Any Any _ _ (get_json-Ends env adapter _ _ _ _) λ response _.
        Ends-Option Any
          (as_text (or_else (field (codes "download_url") response) (field (codes "url") response)))
          (raise sarvam_error) _ (Ends-raise Text sarvam_error (inl refl))
          (λ url. archive-Ends url job call)

  pub read_extract_result-Ends :
      (job : Text) (call : Call) → Ends Any (read_extract_result env adapter job call)
  unfolding read_extract_result
  read_extract_result-Ends job call = get_json-Ends env adapter _ _ _ _

  module _ {A : Type 0} (reader : Text → Call → M A)
      (reads : (job : Text) (call : Call) → Ends Any (reader job call)) where
    finish_job-Ends : (job : Text) (call : Call) → Ends Any (finish_job env adapter job call reader)
    unfolding finish_job
    finish_job-Ends job call =
        Ends->>= Any Any _ _ (poll_from-Ends adapter.max_poll_attempts 0 call job) λ status _.
          Ends-Bool Any (is_completed (field (codes "status") status)) _ _ (reads job call)
            (Ends-raise A sarvam_error (inl refl))

    recorded-Ends : (call : Call) → Ends Any (recorded env adapter call)
    unfolding recorded
    recorded-Ends call w = ground arith

    submitted-Ends :
        (job : Option Text) (call : Call)
        → present job ≡ true
        → Ends Any (elim job as (λ _. M A) [
          | none ↦ raise key_error
          | some j ↦ finish_job env adapter j call reader
        ])
    submitted-Ends none call h = cc
    submitted-Ends (some job) call h = finish_job-Ends job call

    pub run_job-Ends :
        0 < adapter.max_submission_attempts
        → (call : Call) (document : Document) → Ends Any (run_job env adapter call document reader)
    unfolding run_job submit_or_resume audit
    run_job-Ends some_attempt call document w =
        rw (admit->>= env adapter _ w) (elim (Bool-cases (may_send adapter)) [
          | inl may ↦ rw may (
              Ends->>= Any Any (recorded env adapter call) _ (recorded-Ends call)
                (λ job _.
                  Ends-Option Any (resumable_job env adapter job) _ _
                    (Ends->>= (HasJob env adapter) Any _ _
                      (post_json-Ends env adapter _ _ _ _ _ (omega arith) (omega arith))
                      (λ submitted h.
                        submitted-Ends (as_text (field (codes "job_id") submitted)) call h))
                    (λ job. Ends->>= Any Any _ _ (λ w. tt) (λ _ _. finish_job-Ends job call)))
                w)
          | inr not' ↦ rw not' (inl (ground arith))
        ])
