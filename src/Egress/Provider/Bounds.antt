-- ===== src/Egress/Provider/Bounds.antt =====
-- Every call of `digitise_or_fallback` ends after a bounded number of requests.
use janasunani.Base.{ℕ, ◌+◌, ◌≤◌, true, false, [], ◌∷◌, Text, codes, length, arith}
use janasunani.Egress.Http.{Result, str, Payload}
use janasunani.Egress.Audit.{SarvamAuditContext, AuditEvent, disabled, fallback}
use janasunani.Egress.Client.Costs.{Costs, Costs-within, Costs-Bool, Costs-raise, Costs-rescue}
use janasunani.Egress.Client.State.{
  Fault, Adapter, Outside, World, Call, ◌>>=◌, raise, rescue, audit,
}
use janasunani.Egress.Job.{Document, is_sarvam_error, fault_name, read_digitise_result}
use janasunani.Egress.Job.Bounds.{run_job-Costs, read_digitise_result-Costs}
use janasunani.Egress.Provider.{
  DigitiseOutcome, digitise_call, digitise_or_fallback, on_host, hosted,
}

module _ (env : Outside) (adapter : Adapter) where
  on_host-Costs :
      (call : Call) (event : AuditEvent) (metadata : Payload) (local : World → Result Fault Text)
      → Costs 0 (on_host env adapter call event metadata local)
  unfolding ◌>>=◌ audit
  on_host-Costs call event metadata local w = ground arith

  abbrev pub most_requests : ℕ
  most_requests = adapter.max_submission_attempts + (adapter.max_poll_attempts + 2)

  hosted-Costs :
      (call : Call) (document : Document) → Costs most_requests (hosted env adapter call document)
  hosted-Costs call document =
      Costs-within most_requests 0 most_requests _ _ (omega arith)
        (run_job-Costs env adapter call document (read_digitise_result env adapter)
          (λ job. read_digitise_result-Costs env adapter job call))
        (λ text w. omega arith)

  -- Whatever the transport answers, `digitise_or_fallback` ends and has sent at most the
  -- submission attempts, the poll attempts and two requests more.
  pub digitise_or_fallback-Costs :
      (document : Document) (language : Text) (context : SarvamAuditContext)
      (local : World → Result Fault Text) (w : World)
      → length (digitise_or_fallback env adapter document language context local w).1.requests
        ≤ length w.requests + most_requests
  unfolding digitise_or_fallback
  digitise_or_fallback-Costs document language context local =
      let call : Call = digitise_call env adapter context language document in
      Costs-Bool most_requests adapter.enabled
        (rescue (hosted env adapter call document) λ fault. elim (is_sarvam_error fault) [
          | true ↦
              on_host env adapter call fallback ((codes "reason", str (fault_name fault)) ∷ [])
                local
          | false ↦ raise fault
        ])
        (on_host env adapter call disabled [] local)
        (Costs-rescue most_requests 0 most_requests _ _ (omega arith) (hosted-Costs call document)
          λ fault.
            Costs-Bool 0 (is_sarvam_error fault) _ _ (on_host-Costs call fallback _ local)
              (Costs-raise DigitiseOutcome 0 fault))
        (λ w. omega (arith, on_host-Costs call disabled [] local w))
