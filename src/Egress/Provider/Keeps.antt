-- ===== src/Egress/Provider/Keeps.antt =====
-- What the calls of the Sarvam client keep, `digitise_or_fallback` and `extract` keep, and the
-- ledger of requests among it.
use janasunani.Base.{◌≡◌, refl, false, Option, none, [], Text}
use janasunani.Serving.Signals.{present}
use janasunani.Egress.Http.{Result, Payload}
use janasunani.Egress.Audit.{SarvamAuditContext, AuditEvent, disabled, fallback}
use janasunani.Egress.Client.Audited.{
  is_call, IsAudited, Keeps-audit, wait_for_submission_slot-IsAudited, sleep-IsAudited,
  get_json-IsAudited, get_binary-IsAudited, post_json-IsAudited,
}
use janasunani.Egress.Client.Keeps.{Keeps, Keeps->>=, Keeps-raise, Keeps-Bool, Keeps-rescue}
use janasunani.Egress.Client.State.{Fault, Adapter, Outside, World, value_error, Call}
use janasunani.Egress.Job.{Document, is_sarvam_error, read_digitise_result, read_extract_result}
use janasunani.Egress.Job.Keeps.{
  KeptByCalls, KeptByPosts, run_job-Keeps, read_digitise_result-Keeps, read_extract_result-Keeps,
}
use janasunani.Egress.Provider.{
  DigitiseOutcome, ExtractSchema, digitise_call, digitise_or_fallback, on_host, hosted, extract,
  extract_call, same, is_valid_schema,
}

module _ (P : World → Type 0) (env : Outside) (adapter : Adapter) (kept : KeptByCalls P env adapter)
    (posts : KeptByPosts P env adapter) where
  module _ (document : Document) (language : Text) (context : SarvamAuditContext) where
    on_host-Keeps :
        (call : Call) (event : AuditEvent) (metadata : Payload) (local : World → Result Fault Text)
        → is_call event ≡ false
        → Keeps P (on_host env adapter call event metadata local)
    on_host-Keeps call event metadata local e =
        Keeps->>= P _ _ (kept.notes call event none metadata e)
          (λ _. Keeps->>= P _ _ (λ w h. h) (λ text w h. h))

    hosted-Keeps : (call : Call) → Keeps P (hosted env adapter call document)
    hosted-Keeps call =
        Keeps->>= P _ _
          (run_job-Keeps P env adapter kept posts call document (read_digitise_result env adapter)
            (λ job. read_digitise_result-Keeps P env adapter kept job call))
          (λ text w h. h)

    pub digitise_or_fallback-Keeps :
        (local : World → Result Fault Text)
        → Keeps P (digitise_or_fallback env adapter document language context local)
    unfolding digitise_or_fallback
    digitise_or_fallback-Keeps local =
        let call : Call = digitise_call env adapter context language document in
        Keeps-Bool P adapter.enabled _ _
          (Keeps-rescue P _ _ (hosted-Keeps call) λ fault.
            Keeps-Bool P (is_sarvam_error fault) _ _ (on_host-Keeps call fallback _ local refl)
              (Keeps-raise P DigitiseOutcome fault))
          (on_host-Keeps call disabled [] local refl)

    pub extract-Keeps :
        (schema : Option ExtractSchema) (config_id : Option Text)
        → Keeps P (extract env adapter document language context schema config_id)
    unfolding extract
    extract-Keeps schema config_id =
        let call : Call = extract_call env adapter context language document schema config_id in
        Keeps-Bool P (same env adapter (present schema) (present config_id)) _ _
          (Keeps-raise P Payload value_error)
          (Keeps-Bool P (is_valid_schema env adapter schema) _ _
            (run_job-Keeps P env adapter kept posts call document (read_extract_result env adapter)
              (λ job. read_extract_result-Keeps P env adapter kept job call))
            (Keeps-raise P Payload value_error))

module _ (env : Outside) (adapter : Adapter) where
  calls-IsAudited : KeptByCalls (IsAudited adapter) env adapter
  calls-IsAudited = record {
    waits = wait_for_submission_slot-IsAudited adapter env;
    sleeps = sleep-IsAudited adapter env;
    gets = get_json-IsAudited adapter env;
    fetches = get_binary-IsAudited adapter env;
    notes = Keeps-audit adapter env;
  }

  posts-IsAudited : KeptByPosts (IsAudited adapter) env adapter
  posts-IsAudited = post_json-IsAudited adapter env adapter.max_submission_attempts 1

  pub digitise_or_fallback-IsAudited :
      (document : Document) (language : Text) (context : SarvamAuditContext)
      (local : World → Result Fault Text) (w : World)
      → IsAudited adapter w
      → IsAudited adapter (digitise_or_fallback env adapter document language context local w).1
  digitise_or_fallback-IsAudited document language context =
      digitise_or_fallback-Keeps (IsAudited adapter) env adapter calls-IsAudited posts-IsAudited
        document language context

  pub extract-IsAudited :
      (document : Document) (language : Text) (context : SarvamAuditContext)
      (schema : Option ExtractSchema) (config_id : Option Text) (w : World)
      → IsAudited adapter w
      → IsAudited adapter (extract env adapter document language context schema config_id w).1
  extract-IsAudited document language context =
      extract-Keeps (IsAudited adapter) env adapter calls-IsAudited posts-IsAudited document
        language context
