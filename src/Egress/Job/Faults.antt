-- ===== src/Egress/Job/Faults.antt =====
-- How the steps of a job end: what a value promises, and which faults there are.
use janasunani.Base.{
  ℕ, zero, suc, ◌+◌, ◌≡◌, ◌<◌, true, false, List, ◌⊎◌, inl, inr, Text, codes, ◌==◌, arith,
  Bool-cases,
}
use janasunani.Serving.Signals.{present}
use janasunani.Egress.Http.{Payload, Reply, raised, responded, Result, ok, err, field, as_text}
use janasunani.Egress.Audit.{Label}
use janasunani.Egress.Client.{
  wait_for_submission_slot, accept_submission, audit_rate_limit, on_reply, post_json, get_json,
  get_binary,
}
use janasunani.Egress.Client.State.{
  Adapter, Outside, World, Fault, type_error, zip_error, Call, M, ◌>>=◌, audit,
}
use janasunani.Egress.Job.{is_sarvam_error}

-- The faults of a job: those of the client's own family, the look-up of an unhashable status, and what
-- the archive reader raises.
abbrev pub IsJobFault : Fault → Type 0
IsJobFault e = (is_sarvam_error e ≡ true) ⊎ ((e ≡ type_error) ⊎ (e ≡ zip_error))

abbrev pub Ended : {A : Type 0} → (A → Type 0) → Result Fault A → Type 0
Ended Q (ok a) = Q a
Ended Q (err e) = IsJobFault e

abbrev pub Ends : {A : Type 0} → (A → Type 0) → M A → Type 0
Ends Q m = (w : World) → Ended Q (m w).0

abbrev pub Any : {A : Type 0} → A → Type 0
Any a = Unit {0}

Ended-next :
    {A B : Type 0} (Q : A → Type 0) (R : B → Type 0) (f : A → M B) (r : Result Fault A) (v : World)
    → Ended Q r
    → ((a : A) → Q a → Ends R (f a))
    → Ended R (elim r as (λ _. Result Fault B × World) [ ok a ↦ f a v | err e ↦ (err e, v) ]).0
Ended-next Q R f (ok a) v h hf = hf a h v
Ended-next Q R f (err e) v h hf = h

pub Ends->>= :
    {A B : Type 0} (Q : A → Type 0) (R : B → Type 0) (m : M A) (f : A → M B)
    → Ends Q m
    → ((a : A) → Q a → Ends R (f a))
    → Ends R (m >>= f)
unfolding ◌>>=◌
Ends->>= Q R m f hm hf w = Ended-next Q R f (m w).0 (m w).1 (hm w) hf

module _ (env : Outside) (adapter : Adapter) where
  -- A submission that was accepted has a job id.
  abbrev pub HasJob : Payload → Type 0
  HasJob payload = present (as_text (field (codes "job_id") payload)) ≡ true

  pub wait-Ends : Ends Any (wait_for_submission_slot env adapter)
  unfolding wait_for_submission_slot
  wait-Ends w = tt

  pub get_json-Ends :
      (url : Text) (label : Label) (call : Call) (job : Text)
      → Ends Any (get_json env adapter url label call job)
  unfolding get_json ◌>>=◌ audit
  get_json-Ends url label call job w = ground arith

  pub get_binary-Ends :
      (url : Text) (label : Label) (call : Call) (job : Text)
      → Ends Any (get_binary env adapter url label call job)
  unfolding get_binary ◌>>=◌ audit
  get_binary-Ends url label call job w = ground arith

  on_reply-Ends :
      (again : M Payload) (attempt : ℕ) (call : Call) (document : List ℕ) (reply : Reply)
      → ((attempt == adapter.max_submission_attempts) ≡ false → Ends HasJob again)
      → Ends HasJob (on_reply env adapter again attempt call document reply)
  unfolding on_reply accept_submission audit_rate_limit ◌>>=◌ audit
  on_reply-Ends again attempt call document (raised name) h w = ground arith
  on_reply-Ends again attempt call document (responded response) h w =
      elim (Bool-cases (response.status_code == 429)) [
        | inl limited ↦
            rw (limited, on_reply)
              (elim (Bool-cases (attempt == adapter.max_submission_attempts)) [
                | inl last ↦ rw last (ground arith)
                | inr more ↦ rw more (h more _)
              ])
        | inr free ↦ rw (free, on_reply) (ground arith)
      ]

  pub post_json-Ends :
      (left attempt : ℕ) (url : Text) (call : Call) (document : List ℕ)
      → attempt + left ≡ suc adapter.max_submission_attempts
      → 0 < left
      → Ends HasJob (post_json env adapter left attempt url call document)
  unfolding post_json ◌>>=◌ wait_for_submission_slot
  post_json-Ends zero attempt url call document e h w = absurd (omega arith)
  post_json-Ends (suc left) attempt url call document e h w =
      on_reply-Ends (post_json env adapter left (suc attempt) url call document) attempt call
        document _
        (λ more. post_json-Ends left (suc attempt) url call document (omega arith) (ground arith)) _
