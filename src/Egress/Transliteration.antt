-- ===== src/Egress/Transliteration.antt =====
-- `transliterate` and `transliterate_or_fallback` of janasunani/egress/sarvam.py: a text in chunks of
-- at most 1000 characters, one request for each.
pub mod Chunks
pub mod Audited
pub mod Sent
use janasunani.Base.{
  ℕ, zero, suc, ◌+◌, ◌*◌, ◌/◌, ◌%◌, Bool, true, false, not, Option, none, some, List, [], ◌∷◌, ◌++◌,
  Text, codes, if◌then◌else◌, ltb, length, take, drop,
}
use janasunani.Serving.Signals.{non_empty}
use janasunani.Egress.Http.{
  Json, str, num, Payload, HttpResponse, Reply, raised, responded, post, Result, ok, err, field,
  as_text, or_else, json_response, response_metadata,
}
use janasunani.Egress.Audit.{
  SarvamAuditContext, Label, transliterate_operation, AuditEvent, disabled, fallback, succeeded,
  failed,
}
use janasunani.Egress.Client.{wait_for_submission_slot, error_metadata}
use janasunani.Egress.Client.State.{
  Adapter, Outside, World, Fault, sarvam_error, Call, M, ◌>>=◌, ◌>>◌, return, raise, rescue, audit,
  send,
}
use janasunani.Egress.Job.{Document, is_sarvam_error, fault_name, admit}
use janasunani.Egress.Provider.{idempotency_key}

-- `text.encode("utf-8")`
abbrev pub utf8_bytes : ℕ → List ℕ
utf8_bytes c =
    if ltb c 128
    then c ∷ []
    else if ltb c 2048
    then (192 + c / 64) ∷ (128 + c % 64) ∷ []
    else if ltb c 65536
    then (224 + c / 4096) ∷ (128 + c / 64 % 64) ∷ (128 + c % 64) ∷ []
    else (240 + c / 262144) ∷ (128 + c / 4096 % 64) ∷ (128 + c / 64 % 64) ∷ (128 + c % 64) ∷ []

unfoldable pub encode : Text → List ℕ
encode [] = []
encode (c ∷ text) = utf8_bytes c ++ encode text

-- `TRANSLITERATION_MAX_CHARS`
abbrev pub max_chars : ℕ
max_chars = 1000

-- `[text[i : i + 1000] for i in range(0, len(text), 1000)]`, with the chunks left.
unfoldable pub chunks_from : ℕ → Text → List Text
chunks_from zero text = []
chunks_from (suc left) text = take max_chars text ∷ chunks_from left (drop max_chars text)

unfoldable pub chunks : Text → List Text
unfolding chunks_from
chunks text = chunks_from ((length text + 999) / max_chars) text

-- `str(n)`: `digits f n` holds every digit where `n` is below `f`.
unfoldable pub digits : ℕ → ℕ → Text
digits zero n = []
digits (suc fuel) n =
    let higher = digits fuel (n / 10) in
    if ltb n 10 then (48 + n) ∷ [] else higher ++ ((48 + n % 10) ∷ [])

unfoldable pub decimal : ℕ → Text
unfolding digits
decimal n = digits (suc n) n

-- What `_idempotency_key` and the audit rows of one call share.
pub record Languages : Type 0 where
  pub source : Text
  pub target : Text

module _ (env : Outside) (adapter : Adapter) where
  -- `_post_transliterate` once the transport has answered.
  unfoldable pub on_transliterated : Call → ℕ → Reply → M Payload
  on_transliterated call size (raised name) = do
    audit env adapter call (failed Label.transliteration) size none
        (error_metadata env adapter name)
    raise sarvam_error
  on_transliterated call size (responded response) = elim (json_response response) [
    | err name ↦ do
      audit env adapter call (failed Label.transliteration) size none
          (error_metadata env adapter name)
      raise sarvam_error
    | ok payload ↦ do
      audit env adapter call (succeeded Label.transliteration) size none
          (response_metadata payload response.status_code)
      return payload
  ]

  -- `_post_transliterate`
  unfoldable pub post_transliterate : Call → Text → M Payload
  unfolding on_transliterated
  post_transliterate call chunk = do
    wait_for_submission_slot env adapter
    reply ← send env (post (adapter.route.endpoint ++ codes "/transliterate") (encode chunk))
    on_transliterated call (length (encode chunk)) reply

  abbrev pub transliterate_form : Languages → Text → ℕ → ℕ → Payload
  transliterate_form languages chunk index count =
      (codes "input", str chunk)
      ∷ (codes "source_language_code", str languages.source)
      ∷ (codes "target_language_code", str languages.target)
      ∷ (codes "chunk_index", num index)
      ∷ (codes "chunk_count", num count)
      ∷ []

  abbrev pub transliterate_call : Languages → SarvamAuditContext → Document → Text → ℕ → ℕ → Call
  transliterate_call languages context document input index count = record {
    context = context;
    operation = transliterate_operation;
    language = languages.target;
    idempotency_key =
        idempotency_key env adapter context transliterate_operation document
          (transliterate_form languages input index count);
  }

  -- One chunk, under a name of its own.
  abbrev pub chunk_call : Languages → SarvamAuditContext → ℕ → Text → ℕ → Call
  chunk_call languages context count chunk index =
      transliterate_call languages context
        (record {
          filename = codes "transliterate-chunk-" ++ decimal index;
          content = encode chunk;
        })
        chunk index count

  abbrev pub output : Payload → Json
  output payload =
      or_else (field (codes "transliterated_text") payload)
        (or_else (field (codes "output") payload) (or_else (field (codes "text") payload) (str [])))

  -- The result of one chunk, joined to those of the rest.
  unfoldable pub join_rest : M Text → Payload → M Text
  join_rest again payload = elim (as_text (output payload)) [
    | none ↦ raise sarvam_error
    | some text ↦ do texts ← again; return (text ++ texts)
  ]

  -- The loop over the chunks from `index`, with the results joined.
  unfoldable pub transliterate_chunks : Languages → SarvamAuditContext → ℕ → List Text → ℕ → M Text
  transliterate_chunks languages context count [] index = return []
  transliterate_chunks languages context count (chunk ∷ rest) index = do
    payload ← post_transliterate (chunk_call languages context count chunk index) chunk
    join_rest (transliterate_chunks languages context count rest (suc index)) payload

  unfoldable pub transliterate : Text → Languages → SarvamAuditContext → M Text
  unfolding chunks
  transliterate text languages context = do
    admit env adapter
    elim (non_empty text) [
      | false ↦ return []
      | true ↦ transliterate_chunks languages context (length (chunks text)) (chunks text) 0
    ]

  abbrev pub local_text : Call → AuditEvent → Payload → Result Fault Text → M Text
  local_text call event metadata result =
      audit env adapter call event 0 none metadata >> λ w. (result, w)

  unfoldable pub transliterate_or_fallback :
      Text → Languages → SarvamAuditContext → (Text → Result Fault Text) → M Text
  transliterate_or_fallback text languages context local =
      let call =
        transliterate_call languages context
          (record { filename = codes "transliterate"; content = encode text }) (take max_chars text)
          0 1 in
      elim adapter.enabled [
        | false ↦ local_text call disabled [] (local text)
        | true ↦ rescue (transliterate text languages context) λ fault.
            elim (is_sarvam_error fault) [
              | true ↦
                  local_text call fallback ((codes "reason", str (fault_name fault)) ∷ [])
                    (local text)
              | false ↦ raise fault
            ]
      ]
