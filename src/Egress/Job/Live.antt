-- ===== src/Egress/Job/Live.antt =====
-- A job that ends within the polls is seen to end.
use janasunani.Base.{
  ℕ, zero, suc, ◌+◌, ◌≡◌, ◌≤◌, ◌<◌, refl, ◌∙◌, ap, subst, sym, Bool, true, false, Option, none,
  some, Text, codes, length, arith, dec_lt, if◌then◌else◌, ◌==◌,
}
use janasunani.Egress.Http.{Payload, raised, responded, get, ok, err, field, json_response}
use janasunani.Egress.Audit.{poll}
use janasunani.Egress.Client.{wait_for_submission_slot, get_json}
use janasunani.Egress.Client.Chain.{>>=-ok, >>=-value}
use janasunani.Egress.Client.State.{Adapter, Outside, World, Call, M, ◌>>=◌, return, audit, sleep}
use janasunani.Egress.Job.{is_terminal, job_url, poll_from}

-- The status in an answer is found terminal, or found pending.
abbrev pub Found : Bool → Payload → Type 0
Found terminal payload =
    (w : World) → is_terminal (field (codes "status") payload) w ≡ (ok terminal, w)

module _ (env : Outside) (adapter : Adapter) (call : Call) (job : Text) where
  -- The payload that the transport would answer a status request with.
  abbrev pub status_answer : World → Option Payload
  status_answer w = elim (env.answer w (get (job_url env adapter job (codes "status")))) [
    | raised name ↦ none
    | responded response ↦ elim (json_response response) [
      | err name ↦ none
      | ok payload ↦ some payload
    ]
  ]

  get_json-answers :
      (w : World) (payload : Payload)
      → status_answer w ≡ some payload
      → ((get_json env adapter (job_url env adapter job (codes "status")) poll call job w).0
          ≡ ok payload)
        × (length
              (get_json env adapter
                (job_url env adapter job (codes "status"))
                poll
                call
                job
                w).1.requests
            ≡ suc (length w.requests))
  unfolding get_json audit ◌>>=◌
  get_json-answers w payload e = ground arith

  module _ (answers : ℕ → Payload)
      (answering : (w : World) → status_answer w ≡ some (answers (length w.requests))) where
    -- The polls left after one answer.
    next_poll : ℕ → ℕ → Payload → Bool → M Payload
    next_poll left attempt status terminal = elim terminal [
      | true ↦ return status
      | false ↦ poll_from env adapter left (suc attempt) call job
    ]

    -- The state in which the request of one attempt goes out, and the one after it.
    asking : ℕ → World → World
    asking attempt w =
        (wait_for_submission_slot env adapter
          (sleep (if attempt == 0 then 0 else adapter.poll_interval) w).1).1

    answered : ℕ → World → World
    unfolding asking
    answered attempt w =
        (get_json env adapter (job_url env adapter job (codes "status")) poll call job
          (asking attempt w)).1

    asking-requests : (attempt : ℕ) (w : World) → (asking attempt w).requests ≡ w.requests
    unfolding asking wait_for_submission_slot
    asking-requests attempt w = refl

    one_poll :
        (left attempt : ℕ) (terminal : Bool) (w : World)
        → Found terminal (answers (length w.requests))
        → (poll_from env adapter (suc left) attempt call job w
            ≡ next_poll left attempt (answers (length w.requests)) terminal (answered attempt w))
          × (length (answered attempt w).requests ≡ suc (length w.requests))
    unfolding poll_from wait_for_submission_slot ◌>>=◌ next_poll answered asking
    one_poll left attempt terminal w found =
        let v : World = asking attempt w in
        let sent : _ = get_json-answers v (answers (length w.requests)) (answering v) in
        (
          >>=-value (get_json env adapter (job_url env adapter job (codes "status")) poll call job)
                (λ status.
                  is_terminal (field (codes "status") status) >>= next_poll left attempt status)
                v (answers (length w.requests)) sent.0
              ∙ >>=-ok (is_terminal (field (codes "status") (answers (length w.requests))))
                  (next_poll left attempt (answers (length w.requests))) (answered attempt w)
                  (answered attempt w) terminal (found (answered attempt w)),
          sent.1,
        )

    -- If the transport answers each status request with the payload that a sequence holds for the
    -- number of requests sent before it, the payload at `m` has a terminal status, those before
    -- it from the first poll on have none, and `m` lies within the polls left, then polling
    -- returns the payload at `m` and sends no request after that one.
    pub poll_from-ends :
        (left attempt m : ℕ) (w : World)
        → length w.requests ≤ m
        → m < length w.requests + left
        → ((k : ℕ) → length w.requests ≤ k → k < m → Found false (answers k))
        → Found true (answers m)
        → ((poll_from env adapter left attempt call job w).0 ≡ ok (answers m))
          × (length (poll_from env adapter left attempt call job w).1.requests ≡ suc m)
    unfolding next_poll poll_from
    poll_from-ends zero attempt m w low high pending terminal = absurd (omega arith)
    poll_from-ends (suc left) attempt m w low high pending terminal =
        elim (dec_lt (length w.requests) m) [
          | yes early ↦
              let step : _ =
                one_poll left attempt false w (pending (length w.requests) (omega arith) early) in
              let v : World = answered attempt w in
              let rest : _ =
                poll_from-ends left (suc attempt) m v (omega (arith, step.1))
                  (omega (arith, step.1)) (λ k h. pending k (omega (arith, step.1, h))) terminal in
              (ap (λ t. t.0) step.0 ∙ rest.0, ap (λ t. length t.1.requests) step.0 ∙ rest.1)
          | no late ↦
              let now : length w.requests ≡ m = omega arith in
              let step : _ =
                one_poll left attempt true w
                  (subst (λ k. Found true (answers k)) (sym now) terminal) in
              (
                ap (λ t. t.0) step.0 ∙ ap (λ k. ok (answers k)) now,
                ap (λ t. length t.1.requests) step.0 ∙ step.1 ∙ ap suc now,
              )
        ]
