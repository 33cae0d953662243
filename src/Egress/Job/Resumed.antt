-- ===== src/Egress/Job/Resumed.antt =====
-- A job that was accepted is not submitted again.
use janasunani.Base.{
  ℕ, zero, suc, ◌≡◌, refl, sym, subst, ◌∙◌, true, some, List, [], ◌∷◌, Text, codes, length,
  Bool-cases, Option-cases, inl, inr, arith, ◌==◌,
}
use janasunani.Serving.Signals.{non_empty}
use janasunani.Egress.Http.{
  Payload, HttpResponse, Reply, raised, responded, Request, post, get, Result, ok, err,
  Result-cases, field, as_text, json_response, response_metadata,
}
use janasunani.Egress.Audit.{resume, submitted_job, status_says, resumable}
use janasunani.Egress.Audit.Resume.{
  IsSubmitted, Resumes, submitted_job-Resumes, field-attempt, field-response_metadata,
}
use janasunani.Egress.Client.{
  wait_for_submission_slot, accept_submission, audit_rate_limit, on_reply, post_json, get_json,
  get_binary,
}
use janasunani.Egress.Client.Chain.{>>=-ok}
use janasunani.Egress.Client.Keeps.{Keeps->>=}
use janasunani.Egress.Client.State.{Adapter, Outside, World, Fault, Call, M, ◌>>=◌, audit}
use janasunani.Egress.Job.{Document, recorded, submit_or_resume, run_job, read_digitise_result}
use janasunani.Egress.Job.Admitted.{may_send, admit->>=}
use janasunani.Egress.Job.Keeps.{KeptByCalls, finish_job-Keeps, read_digitise_result-Keeps}

unfoldable pub posts : List Request → ℕ
posts [] = 0
posts (post url document ∷ requests) = suc (posts requests)
posts (get url ∷ requests) = posts requests

module _ (env : Outside) (adapter : Adapter) where
  module _ (call : Call) (document : List ℕ) where
    -- The row that a submission ends with, where it is accepted.
    abbrev pub IsRecorded : Result Fault Payload × World → Type 0
    IsRecorded (ok payload, v) =
        IsSubmitted call.context call.operation call.idempotency_key payload v.log
    IsRecorded (err e, v) = Unit {0}

    accept_submission-IsRecorded :
        (attempt : ℕ) (response : HttpResponse) (w : World)
        → IsRecorded (accept_submission env adapter call (length document) attempt response w)
    unfolding accept_submission ◌>>=◌ audit
    accept_submission-IsRecorded attempt response w = elim (Result-cases (json_response response)) [
      | inl (name, e) ↦ rw (e, accept_submission) tt
      | inr (payload, e) ↦
          rw (e, accept_submission)
            (elim (Option-cases (as_text (field (codes "job_id") payload))) [
              | inl no_job ↦ rw no_job tt
              | inr (job, e') ↦ rw e' (
                refl,
                refl,
                refl,
                refl,
                refl,
                refl,
                sym e',
                field-attempt (response_metadata payload response.status_code) attempt
                    ∙ field-response_metadata payload response.status_code,
              )
            ])
    ]

    on_reply-IsRecorded :
        (again : M Payload) (attempt : ℕ) (reply : Reply)
        → ((w : World) → IsRecorded (again w))
        → (w : World) → IsRecorded (on_reply env adapter again attempt call document reply w)
    unfolding on_reply accept_submission audit_rate_limit ◌>>=◌ audit
    on_reply-IsRecorded again attempt (raised name) h w = tt
    on_reply-IsRecorded again attempt (responded response) h w =
        elim (Bool-cases (response.status_code == 429)) [
          | inl limited ↦
              rw (limited, on_reply)
                (elim (Bool-cases (attempt == adapter.max_submission_attempts)) [
                  | inl last ↦ rw last tt
                  | inr more ↦ rw more (h _)
                ])
          | inr free ↦ rw (free, on_reply) (accept_submission-IsRecorded attempt response w)
        ]

    pub post_json-IsRecorded :
        (left attempt : ℕ) (url : Text) (w : World)
        → IsRecorded (post_json env adapter left attempt url call document w)
    unfolding post_json ◌>>=◌ wait_for_submission_slot
    post_json-IsRecorded zero attempt url w = tt
    post_json-IsRecorded (suc left) attempt url w =
        on_reply-IsRecorded (post_json env adapter left (suc attempt) url call document) attempt _
          (post_json-IsRecorded left (suc attempt) url) _

  found_job :
      (call : Call) (job : Text) (w : World)
      → submitted_job w.log call.context call.operation call.idempotency_key ≡ ok (some job)
      → recorded env adapter call w ≡ (ok (some job), w)
  unfolding recorded
  found_job call job w e = rw (e, recorded) refl

  module _ (k : ℕ) where
    -- The number of submissions.
    abbrev pub HasPosts : World → Type 0
    HasPosts w = posts w.requests ≡ k

    calls-HasPosts : KeptByCalls HasPosts env adapter
    unfolding wait_for_submission_slot get_json get_binary audit ◌>>=◌ posts
    calls-HasPosts = record {
      waits = λ w h. h;
      sleeps = λ delay w h. h;
      gets = λ url label call job w h. ground arith;
      fetches = λ url label call job w h. ground arith;
      notes = λ call event job metadata e w h. h;
    }

    -- A recorded job is resumed.
    resumed-HasPosts :
        (call : Call) (document : Document) (job : Text) (w : World)
        → submitted_job w.log call.context call.operation call.idempotency_key ≡ ok (some job)
        → non_empty job ≡ true
        → HasPosts w
        → HasPosts (run_job env adapter call document (read_digitise_result env adapter) w).1
    unfolding run_job submit_or_resume
    resumed-HasPosts call document job w found e h =
        rw (admit->>= env adapter _ w) (elim (Bool-cases (may_send adapter)) [
          | inl may ↦
              rw
                (
                  may,
                  >>=-ok (recorded env adapter call) _ w w (some job) (found_job call job w found),
                )
                (rw e (
                  Keeps->>= HasPosts (audit env adapter call resume 0 (some job) []) _
                    (calls-HasPosts.notes call resume (some job) [] refl)
                    (λ _.
                      finish_job-Keeps HasPosts env adapter calls-HasPosts job call
                        (read_digitise_result env adapter)
                        (read_digitise_result-Keeps HasPosts env adapter calls-HasPosts job call))
                    w h))
          | inr not' ↦ rw not' h
        ])

  -- If a submission of a call returns a payload with a job id that is not empty and a status that
  -- leaves the job resumable, then a later run of the same call from that state posts nothing.
  pub run_job-resumes :
      (call : Call) (document : Document) (left attempt : ℕ) (url job : Text) (w v : World)
      (payload : Payload)
      → post_json env adapter left attempt url call document.content w ≡ (ok payload, v)
      → as_text (field (codes "job_id") payload) ≡ some job
      → non_empty job ≡ true
      → status_says (field (codes "status") payload) ≡ resumable
      → posts (run_job env adapter call document (read_digitise_result env adapter) v).1.requests
        ≡ posts v.requests
  run_job-resumes call document left attempt url job w v payload sent has_job named queued =
      let recorded : IsRecorded call document.content (ok payload, v) =
        subst (IsRecorded call document.content) sent
          (post_json-IsRecorded call document.content left attempt url w) in
      let found : Resumes resumable job
          (submitted_job v.log call.context call.operation call.idempotency_key) =
        subst
          (λ s.
            Resumes s job (submitted_job v.log call.context call.operation call.idempotency_key))
          queued
          (submitted_job-Resumes call.context call.operation call.idempotency_key job payload v.log
            recorded has_job) in
      resumed-HasPosts (posts v.requests) call document job v found named refl
