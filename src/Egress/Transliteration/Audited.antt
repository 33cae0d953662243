-- ===== src/Egress/Transliteration/Audited.antt =====
-- Each request of a transliteration leaves its row.
use janasunani.Base.{
  ℕ, suc, ◌≡◌, refl, false, none, List, [], ◌∷◌, ◌++◌, Text, codes, length, arith,
}
use janasunani.Serving.Signals.{non_empty}
use janasunani.Egress.Http.{Result, Payload, Reply, raised, responded, post, as_text}
use janasunani.Egress.Audit.{SarvamAuditContext, AuditEvent, disabled, fallback}
use janasunani.Egress.Client.{wait_for_submission_slot}
use janasunani.Egress.Client.Audited.{
  IsAudited, is_call, calls, bytes_logged, bytes_posted, Keeps-audit,
  wait_for_submission_slot-IsAudited,
}
use janasunani.Egress.Client.Keeps.{
  Keeps, Keeps->>=, Keeps-raise, Keeps-Bool, Keeps-Option, Keeps-rescue,
}
use janasunani.Egress.Client.State.{
  Fault, Adapter, Outside, World, sarvam_error, Call, ◌>>=◌, audit,
}
use janasunani.Egress.Job.{is_sarvam_error, admit}
use janasunani.Egress.Transliteration.{
  encode, chunks, Languages, on_transliterated, post_transliterate, chunk_call, output, join_rest,
  transliterate_chunks, transliterate, local_text, transliterate_or_fallback,
}

module _ (env : Outside) (adapter : Adapter) where
  on_transliterated-IsAudited :
      (call : Call) (url : Text) (document : List ℕ) (reply : Reply) (w : World)
      → IsAudited adapter w
      → IsAudited adapter
          (on_transliterated env adapter call
            (length document)
            reply
            (record w { requests = post url document ∷ w.requests })).1
  unfolding on_transliterated ◌>>=◌ audit calls bytes_logged bytes_posted
  on_transliterated-IsAudited call url document (raised name) w h = ground (arith, h)
  on_transliterated-IsAudited call url document (responded response) w h = ground (arith, h)

  post_transliterate-IsAudited :
      (call : Call) (chunk : Text)
      → Keeps (IsAudited adapter) (post_transliterate env adapter call chunk)
  unfolding post_transliterate ◌>>=◌ wait_for_submission_slot
  post_transliterate-IsAudited call chunk w h =
      let v : World = (wait_for_submission_slot env adapter w).1 in
      on_transliterated-IsAudited call (adapter.route.endpoint ++ codes "/transliterate")
        (encode chunk)
        (env.answer v (post (adapter.route.endpoint ++ codes "/transliterate") (encode chunk))) v
        (wait_for_submission_slot-IsAudited adapter env w h)

  admit-IsAudited : Keeps (IsAudited adapter) (admit env adapter)
  unfolding admit
  admit-IsAudited w h = ground (arith, h)

  module _ (languages : Languages) (context : SarvamAuditContext) where
    transliterate_chunks-IsAudited :
        (count : ℕ) (parts : List Text) (index : ℕ)
        → Keeps
            (IsAudited adapter)
            (transliterate_chunks env adapter languages context count parts index)
    unfolding transliterate_chunks join_rest
    transliterate_chunks-IsAudited count [] index = λ w h. h
    transliterate_chunks-IsAudited count (chunk ∷ rest) index =
        Keeps->>= (IsAudited adapter) _ _
          (post_transliterate-IsAudited (chunk_call env adapter languages context count chunk index)
            chunk)
          λ payload.
            Keeps-Option (IsAudited adapter) (as_text (output env adapter payload)) _ _
              (Keeps-raise (IsAudited adapter) Text sarvam_error)
              λ text.
                Keeps->>= (IsAudited adapter) _ _
                  (transliterate_chunks-IsAudited count rest (suc index)) (λ texts w h. h)

    transliterate-IsAudited :
        (text : Text) → Keeps (IsAudited adapter) (transliterate env adapter text languages context)
    unfolding transliterate
    transliterate-IsAudited text = Keeps->>= (IsAudited adapter) _ _ admit-IsAudited λ _.
        Keeps-Bool (IsAudited adapter) (non_empty text) _ _
          (transliterate_chunks-IsAudited (length (chunks text)) (chunks text) 0) (λ w h. h)

    local_text-IsAudited :
        (call : Call) (event : AuditEvent) (metadata : Payload) (result : Result Fault Text)
        → is_call event ≡ false
        → Keeps (IsAudited adapter) (local_text env adapter call event metadata result)
    local_text-IsAudited call event metadata result e =
        Keeps->>= (IsAudited adapter) _ _ (Keeps-audit adapter env call event none metadata e)
          (λ _ w h. h)

    pub transliterate_or_fallback-IsAudited :
        (text : Text) (local : Text → Result Fault Text)
        → Keeps
            (IsAudited adapter)
            (transliterate_or_fallback env adapter text languages context local)
    unfolding transliterate_or_fallback
    transliterate_or_fallback-IsAudited text local =
        Keeps-Bool (IsAudited adapter) adapter.enabled _ _
          (Keeps-rescue (IsAudited adapter) _ _ (transliterate-IsAudited text) λ fault.
            Keeps-Bool (IsAudited adapter) (is_sarvam_error fault) _ _
              (local_text-IsAudited _ fallback _ (local text) refl)
              (Keeps-raise (IsAudited adapter) Text fault))
          (local_text-IsAudited _ disabled [] (local text) refl)
