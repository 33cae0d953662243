-- ===== src/Egress/Client/Audited.antt =====
-- Every call of the Sarvam client leaves one row that names its route and the bytes that it sent.
use janasunani.Base.{
  ℕ, zero, suc, ◌+◌, ◌≡◌, Bool, true, false, Option, List, [], ◌∷◌, Text, All, length, arith,
  Bool-cases, inl, inr, if◌then◌else◌, ◌==◌,
}
use janasunani.Egress.Http.{Payload, Reply, raised, responded, Request, post, get}
use janasunani.Egress.Audit.{
  Label, AuditEvent, disabled, fallback, resume, succeeded, failed, rate_limited,
  rate_limit_exhausted, AuditRecord,
}
use janasunani.Egress.Client.{
  wait_for_submission_slot, accept_submission, audit_rate_limit, on_reply, post_json, get_json,
  get_binary,
}
use janasunani.Egress.Client.Keeps.{Keeps}
use janasunani.Egress.Client.State.{
  Adapter, Outside, World, Call, M, ◌>>=◌, audit, sleep, authorization_reference,
}

-- The rows that stand for a request.
abbrev pub is_call : AuditEvent → Bool
is_call disabled = false
is_call fallback = false
is_call resume = false
is_call (succeeded label) = true
is_call (failed label) = true
is_call (rate_limited label) = true
is_call (rate_limit_exhausted label) = true

unfoldable pub calls : List AuditRecord → ℕ
calls [] = 0
calls (row ∷ rows) = let n = calls rows in if is_call row.event then suc n else n

unfoldable pub bytes_logged : List AuditRecord → ℕ
bytes_logged [] = 0
bytes_logged (row ∷ rows) = row.bytes_sent + bytes_logged rows

abbrev pub body : Request → ℕ
body (post url document) = length document
body (get url) = 0

unfoldable pub bytes_posted : List Request → ℕ
bytes_posted [] = 0
bytes_posted (request ∷ requests) = body request + bytes_posted requests

module _ (adapter : Adapter) where
  -- A row names the provider and the authorization of the route.
  abbrev pub IsAuthorised : AuditRecord → Type 0
  IsAuthorised row =
      (row.provider ≡ adapter.route.provider)
      × (row.model_id ≡ adapter.route.model_id)
      × (row.authorization_reference ≡ authorization_reference adapter.route)

  pub record IsAudited (w : World) : Type 0 where
    pub counted : calls w.log ≡ length w.requests
    pub measured : bytes_logged w.log ≡ bytes_posted w.requests
    pub authorised : All IsAuthorised w.log

  -- A row that stands for no request, and no bytes.
  pub Keeps-audit :
      (env : Outside) (call : Call) (event : AuditEvent) (job : Option Text) (metadata : Payload)
      → is_call event ≡ false
      → Keeps IsAudited (audit env adapter call event 0 job metadata)
  unfolding audit calls bytes_logged
  Keeps-audit env call event job metadata e w h = ground (arith, h)

  module _ (env : Outside) where
    pub wait_for_submission_slot-IsAudited : Keeps IsAudited (wait_for_submission_slot env adapter)
    unfolding wait_for_submission_slot
    wait_for_submission_slot-IsAudited w h = record {
      counted = h.counted;
      measured = h.measured;
      authorised = h.authorised;
    }

    pub sleep-IsAudited : (delay : ℕ) → Keeps IsAudited (sleep delay)
    sleep-IsAudited delay w h = record {
      counted = h.counted;
      measured = h.measured;
      authorised = h.authorised;
    }

    pub get_json-IsAudited :
        (url : Text) (label : Label) (call : Call) (job : Text)
        → Keeps IsAudited (get_json env adapter url label call job)
    unfolding get_json ◌>>=◌ audit calls bytes_logged bytes_posted
    get_json-IsAudited url label call job w h = ground (arith, h)

    pub get_binary-IsAudited :
        (url : Text) (label : Label) (call : Call) (job : Text)
        → Keeps IsAudited (get_binary env adapter url label call job)
    unfolding get_binary ◌>>=◌ audit calls bytes_logged bytes_posted
    get_binary-IsAudited url label call job w h = ground (arith, h)

    on_reply-IsAudited :
        (again : M Payload) (url : Text) (attempt : ℕ) (call : Call) (document : List ℕ)
        (reply : Reply) (w : World)
        → Keeps IsAudited again
        → IsAudited w
        → IsAudited
            (on_reply env adapter again attempt call document reply
              (record w { requests = post url document ∷ w.requests })).1
    unfolding on_reply ◌>>=◌ accept_submission audit_rate_limit audit calls bytes_logged
        bytes_posted
    on_reply-IsAudited again url attempt call document (raised name) w keep h = ground (arith, h)
    on_reply-IsAudited again url attempt call document (responded response) w keep h =
        elim (Bool-cases (response.status_code == 429)) [
          | inl limited ↦
              rw (limited, on_reply)
                (elim (Bool-cases (attempt == adapter.max_submission_attempts)) [
                  | inl last ↦ rw last (ground (arith, h))
                  | inr more ↦ rw more (keep _ (ground (arith, h)))
                ])
          | inr free ↦ rw (free, on_reply) (ground (arith, h))
        ]

    pub post_json-IsAudited :
        (left attempt : ℕ) (url : Text) (call : Call) (document : List ℕ)
        → Keeps IsAudited (post_json env adapter left attempt url call document)
    unfolding post_json ◌>>=◌ wait_for_submission_slot
    post_json-IsAudited zero attempt url call document w h = h
    post_json-IsAudited (suc left) attempt url call document w h =
        let v : World = (wait_for_submission_slot env adapter w).1 in
        on_reply-IsAudited (post_json env adapter left (suc attempt) url call document) url attempt
          call document (env.answer v (post url document)) v
          (post_json-IsAudited left (suc attempt) url call document)
          (wait_for_submission_slot-IsAudited w h)
