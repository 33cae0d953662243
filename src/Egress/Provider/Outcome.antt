-- ===== src/Egress/Provider/Outcome.antt =====
-- `digitise_or_fallback` reports the engine that produced the text, and its last row says why.
use janasunani.Base.{
  ◌≡◌, ◌<◌, refl, Bool, true, false, Option, none, some, List, [], ◌∷◌, ◌⊎◌, inl, inr, Text, codes,
  arith, ap, if◌then◌else◌,
}
use janasunani.Egress.Http.{str, Payload, Result, ok, err}
use janasunani.Egress.Audit.{SarvamAuditContext, AuditEvent, disabled, fallback, AuditRecord}
use janasunani.Egress.Client.Chain.{>>=-ok, >>=-err, rescue-ok, rescue-err}
use janasunani.Egress.Client.State.{
  Adapter, Outside, World, Fault, type_error, zip_error, Call, M, ◌>>=◌, raise, rescue, audit,
}
use janasunani.Egress.Job.{Document, is_sarvam_error, fault_name, run_job, read_digitise_result}
use janasunani.Egress.Job.Faults.{IsJobFault, Ended, Any}
use janasunani.Egress.Job.Outcome.{run_job-Ends, read_digitise_result-Ends}
use janasunani.Egress.Provider.{
  DigitiseOutcome, digitise_call, digitise_or_fallback, on_host, hosted, engine_of,
}

abbrev pub newest : List AuditRecord → Option AuditEvent
newest [] = none
newest (row ∷ rows) = some row.event

module _ (adapter : Adapter) (local : World → Result Fault Text) (remote : Result Fault Text) where
  -- The newest row says why the local engine runs: the adapter is disabled, or the job failed in the
  -- client's own way.
  abbrev pub IsExplained : World → Type 0
  IsExplained v =
      (newest v.log ≡ some (if adapter.enabled then fallback else disabled))
      × (adapter.enabled ≡ true → (e : Fault) × (remote ≡ err e) × (is_sarvam_error e ≡ true))

  -- The local text.
  abbrev pub IsLocal : DigitiseOutcome → World → Type 0
  IsLocal outcome v =
      (outcome.ocr_model ≡ codes "pytesseract") × (local v ≡ ok outcome.text) × IsExplained v

  -- The text of a job that ended well.
  abbrev pub IsHosted : DigitiseOutcome → Type 0
  IsHosted outcome =
      (adapter.enabled ≡ true)
      × (outcome.ocr_model ≡ engine_of adapter)
      × (remote ≡ ok outcome.text)

  -- What the local engine raises, and what the job raises besides the client's own errors.
  abbrev pub IsReported : Result Fault DigitiseOutcome × World → Type 0
  IsReported (ok outcome, v) = IsLocal outcome v ⊎ IsHosted outcome
  IsReported (err e, v) =
      ((local v ≡ err e) × IsExplained v)
      ⊎ ((adapter.enabled ≡ true) × (remote ≡ err e) × ((e ≡ type_error) ⊎ (e ≡ zip_error)))

  local-IsReported :
      (r : Result Fault Text) (v : World)
      → local v ≡ r
      → IsExplained v
      → IsReported (elim r as (λ _. Result Fault DigitiseOutcome × World) [
        | ok text ↦ (ok (record { text = text; ocr_model = codes "pytesseract" }), v)
        | err e ↦ (err e, v)
      ])
  local-IsReported (ok text) v e h = inl (refl, e, h)
  local-IsReported (err x) v e h = inl (e, h)

-- A property of both branches, each where its test sends it.
branches :
    {A : Type 0} (P : A → Type 0) (b : Bool) (x y : A)
    → (b ≡ true → P x)
    → (b ≡ false → P y)
    → P (elim b [ true ↦ x | false ↦ y ])
branches P true x y hx hy = hx refl
branches P false x y hx hy = hy refl

module _ (env : Outside) (adapter : Adapter) (call : Call) (local : World → Result Fault Text) where
  abbrev fall_back : Fault → M DigitiseOutcome
  fall_back fault = elim (is_sarvam_error fault) [
    | true ↦ on_host env adapter call fallback ((codes "reason", str (fault_name fault)) ∷ []) local
    | false ↦ raise fault
  ]

  on_host-IsReported :
      (event : AuditEvent) (metadata : Payload) (r : Result Fault Text) (w : World)
      → event ≡ (if adapter.enabled then fallback else disabled)
      → (adapter.enabled ≡ true → (e : Fault) × (r ≡ err e) × (is_sarvam_error e ≡ true))
      → IsReported adapter local r (on_host env adapter call event metadata local w)
  unfolding ◌>>=◌ audit
  on_host-IsReported event metadata r w named why =
      local-IsReported adapter local r _ _ refl (ap (λ e. some e) named, why)

  fall_back-IsReported :
      (e : Fault) (v : World)
      → adapter.enabled ≡ true
      → IsJobFault e
      → IsReported adapter local (err e) (fall_back e v)
  fall_back-IsReported e v on h =
      branches {A = M DigitiseOutcome} (λ m. IsReported adapter local (err e) (m v))
        (is_sarvam_error e) _ _
        (λ own. on_host-IsReported fallback _ (err e) v (rw on refl) (λ _. (e, refl, own)))
        (λ foreign. inr (on, refl, ground (arith, h, foreign)))

  hosted-IsReported :
      (document : Document) (w : World) (r : Result Fault Text) (v : World)
      → adapter.enabled ≡ true
      → run_job env adapter call document (read_digitise_result env adapter) w ≡ (r, v)
      → Ended Any r
      → IsReported adapter local r (rescue (hosted env adapter call document) fall_back w)
  hosted-IsReported document w (ok text) v on e h =
      rw (rescue-ok _ fall_back w v _ (>>=-ok _ _ w v text e)) (inr (on, refl, refl))
  hosted-IsReported document w (err x) v on e h =
      rw (rescue-err _ fall_back w v x (>>=-err _ _ w v x e)) (fall_back-IsReported x v on h)

module _ (env : Outside) (adapter : Adapter) where
  -- With at least one submission attempt, `digitise_or_fallback` returns, for an enabled adapter,
  -- the text of the remote job under the name of its provider and model, or ends as the local
  -- engine does: with its text under the name `pytesseract`, or with what it raises; the local
  -- engine runs only after a newest row that is `disabled` for a disabled adapter and `fallback`
  -- for an enabled one, whose job has then ended with an error of the client's own. The only
  -- other faults that leave it are those of the remote job of an enabled adapter: a `TypeError`,
  -- or an exception of the archive reader other than `BadZipFile`.
  pub digitise_or_fallback-IsReported :
      0 < adapter.max_submission_attempts
      → (document : Document) (language : Text) (context : SarvamAuditContext)
        (local : World → Result Fault Text) (w : World)
      → IsReported adapter local
          (run_job env adapter
            (digitise_call env adapter context language document)
            document
            (read_digitise_result env adapter)
            w).0
          (digitise_or_fallback env adapter document language context local w)
  unfolding digitise_or_fallback
  digitise_or_fallback-IsReported some_attempt document language context local w =
      let call : Call = digitise_call env adapter context language document in
      let r : Result Fault Text × World =
        run_job env adapter call document (read_digitise_result env adapter) w in
      branches (λ m. IsReported adapter local r.0 (m w)) adapter.enabled
        (rescue (hosted env adapter call document) (fall_back env adapter call local))
        (on_host env adapter call disabled [] local)
        (λ on. hosted-IsReported env adapter call local document w r.0 r.1 on refl (
          run_job-Ends env adapter (read_digitise_result env adapter)
            (read_digitise_result-Ends env adapter) some_attempt call document w))
        (λ off.
          on_host-IsReported env adapter call local disabled [] r.0 w (rw off refl)
            (λ on. absurd (ground (arith, on, off))))
