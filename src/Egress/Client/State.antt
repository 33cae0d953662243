-- ===== src/Egress/Client/State.antt =====
-- The state of `SarvamVisionAdapter` in janasunani/egress/sarvam.py, what it meets outside, its
-- faults, and `_audit`. A step takes the state and returns it with a value or a fault.
use janasunani.Base.{ℕ, ◌+◌, Bool, Option, none, some, List, [], ◌∷◌, ◌++◌, Text, codes}
use janasunani.Egress.Http.{Payload, Reply, Request, Result, ok, err}
use janasunani.Egress.Audit.{SarvamAuditContext, Operation, AuditEvent, AuditRecord}
use janasunani.Egress.Route.{
  ProviderRoute, verified_controls, accepted, blocked, egress_basis, unverified_controls,
}

-- Times are in milliseconds.
pub record Adapter : Type 0 where
  pub enabled : Bool
  pub api_key : Text
  pub route : ProviderRoute
  pub poll_interval : ℕ
  pub max_poll_attempts : ℕ
  pub max_submission_attempts : ℕ
  pub submission_backoff : ℕ

-- The log and the requests sent, newest first, the times that the rate limit keeps, and the clock.
pub record World : Type 0 where
  pub log : List AuditRecord
  pub requests : List Request
  pub submission_times : List ℕ
  pub now : ℕ

-- What reading a member of a ZIP archive gives: its text, `BadZipFile`, bytes that are not UTF-8, or another
-- exception, as for an encrypted member or an unknown compression.
pub data Member : Type 0 where
  decoded : Text → Member
  bad_member : Member
  not_utf8 : Member
  member_raised : Member

-- What opening an archive gives: its names with their members, `BadZipFile`, or another exception.
pub data ResultZip : Type 0 where
  opened : List (Text × Member) → ResultZip
  bad_zip_file : ResultZip
  zip_raised : ResultZip

-- What the program does not decide: how the transport answers a request, the time that passes, the
-- text of a timestamp, SHA-256 over texts joined by zero bytes, `json.dumps` of a form, and the reader
-- of a ZIP archive. The transport and the reader may raise; the hash, `json.dumps` and the rows of the log do not.
pub record Outside : Type 0 where
  pub answer : World → Request → Reply
  pub lag : World → ℕ
  pub slack : World → ℕ
  pub stamp : World → Text
  pub digest : List Text → Text
  pub dumps : Payload → Text
  pub members : Text → ResultZip

-- The classes of the exceptions that leave the client; `zip_error` stands for those of the archive reader
-- other than `BadZipFile`, and `engine_error` for those of a local engine.
pub data Fault : Type 0 where
  sarvam_error : Fault
  sarvam_disabled : Fault
  sarvam_governance_error : Fault
  sarvam_poll_timeout : Fault
  value_error : Fault
  type_error : Fault
  key_error : Fault
  assertion_error : Fault
  zip_error : Fault
  engine_error : Fault

-- What the steps of one job share.
pub record Call : Type 0 where
  pub context : SarvamAuditContext
  pub operation : Operation
  pub language : Text
  pub idempotency_key : Text

abbrev pub M : Type 0 → Type 0
M A = World → Result Fault A × World

infixl 5 ◌>>=◌ ◌>>◌
unfoldable pub ◌>>=◌ : {A B : Type 0} → M A → (A → M B) → M B
◌>>=◌ m f w = elim (m w).0 [ ok a ↦ f a (m w).1 | err e ↦ (err e, (m w).1) ]

abbrev pub ◌>>◌ : {B : Type 0} → M (Unit {0}) → M B → M B
m >> k = m >>= λ _. k

-- `try: m` with a handler of what it raises.
unfoldable pub rescue : {A : Type 0} → M A → (Fault → M A) → M A
rescue m handler w = elim (m w).0 [ ok a ↦ (ok a, (m w).1) | err e ↦ handler e (m w).1 ]

abbrev pub return : {A : Type 0} → A → M A
return a w = (ok a, w)

abbrev pub raise : {A : Type 0} → Fault → M A
raise e w = (err e, w)

-- `separator.join(parts)`
unfoldable pub join : Text → List Text → Text
join separator [] = []
join separator (part ∷ []) = part
join separator (part ∷ next ∷ parts) = part ++ (separator ++ join separator (next ∷ parts))

-- `_authorization_reference`
unfoldable pub authorization_reference : ProviderRoute → Text
authorization_reference r = elim (egress_basis r) [
  | verified_controls ↦ r.authorization_reference
  | blocked ↦ r.authorization_reference
  | accepted ↦ elim r.accepted_risk [
    | none ↦ r.authorization_reference
    | some risk ↦
        r.authorization_reference
        ++ (codes " | risk accepted by "
            ++ (risk.authority
                ++ (codes " on "
                    ++ (risk.accepted_on
                        ++ (codes ": "
                            ++ (risk.basis
                                ++ (codes " (unverified: "
                                    ++ (join (codes ", ") (unverified_controls r)
                                        ++ codes ")"))))))))
  ]
]

module _ (env : Outside) where
  -- A request goes out, and the transport's reply comes back.
  abbrev pub send : Request → M Reply
  send request w = (ok (env.answer w request), record w { requests = request ∷ w.requests })

  -- `_audit`
  unfoldable pub audit : Adapter → Call → AuditEvent → ℕ → Option Text → Payload → M (Unit {0})
  audit adapter call event bytes_sent job_id metadata w = (
    ok tt,
    record w {
      log =
          record {
            ticket = call.context.ticket;
            stage = call.context.stage;
            document_id = call.context.document_id;
            provider = adapter.route.provider;
            model_id = adapter.route.model_id;
            bytes_sent = bytes_sent;
            timestamp = env.stamp w;
            authorization_reference = authorization_reference adapter.route;
            operation = call.operation;
            event = event;
            language = call.language;
            idempotency_key = call.idempotency_key;
            job_id = job_id;
            response_metadata = metadata;
          }
          ∷ w.log;
    },
  )

-- `self.sleep`
abbrev pub sleep : ℕ → M (Unit {0})
sleep delay w = (ok tt, record w { now = w.now + delay })
