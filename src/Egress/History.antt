-- ===== src/Egress/History.antt =====
-- The life of a `SarvamVisionAdapter` of janasunani/egress/sarvam.py: any calls of its public
-- operations, one after another, from an empty log.
use janasunani.Base.{refl, ◌≡◌, Option, [], Text}
use janasunani.Egress.Http.{Result}
use janasunani.Egress.Audit.{SarvamAuditContext}
use janasunani.Egress.Client.Audited.{IsAudited, calls, bytes_logged, bytes_posted}
use janasunani.Egress.Client.State.{Fault, Adapter, Outside, World}
use janasunani.Egress.Job.{Document}
use janasunani.Egress.Provider.{ExtractSchema, digitise_or_fallback, extract}
use janasunani.Egress.Provider.Keeps.{digitise_or_fallback-IsAudited, extract-IsAudited}
use janasunani.Egress.Transliteration.{Languages, transliterate_or_fallback}
use janasunani.Egress.Transliteration.Audited.{transliterate_or_fallback-IsAudited}

abbrev pub fresh : World
fresh = record { log = []; requests = []; submission_times = []; now = 0 }

module _ (env : Outside) (adapter : Adapter) where
  pub data Step (w v : World) : Type 0 where
    digitises :
        (document : Document) (language : Text) (context : SarvamAuditContext)
        (local : World → Result Fault Text)
        → v ≡ (digitise_or_fallback env adapter document language context local w).1
        → Step w v
    extracts :
        (document : Document) (language : Text) (context : SarvamAuditContext)
        (schema : Option ExtractSchema) (config_id : Option Text)
        → v ≡ (extract env adapter document language context schema config_id w).1
        → Step w v
    transliterates :
        (text : Text) (languages : Languages) (context : SarvamAuditContext)
        (local : Text → Result Fault Text)
        → v ≡ (transliterate_or_fallback env adapter text languages context local w).1
        → Step w v

  pub data Reach : World → Type 0 where
    start : Reach fresh
    next : {w v : World} → Reach w → Step w v → Reach v

  Step-IsAudited : {w v : World} → Step w v → IsAudited adapter w → IsAudited adapter v
  Step-IsAudited {w} (digitises document language context local e) h =
      rw e (digitise_or_fallback-IsAudited env adapter document language context local w h)
  Step-IsAudited {w} (extracts document language context schema config_id e) h =
      rw e (extract-IsAudited env adapter document language context schema config_id w h)
  Step-IsAudited {w} (transliterates text languages context local e) h =
      rw e (transliterate_or_fallback-IsAudited env adapter languages context text local w h)

  fresh-IsAudited : IsAudited adapter fresh
  unfolding calls bytes_logged bytes_posted
  fresh-IsAudited = record { counted = refl; measured = refl; authorised = tt }

  -- In every state that calls of `digitise_or_fallback`, `extract` and
  -- `transliterate_or_fallback` can reach from an empty log, whatever the transport answers, the
  -- rows of calls are as many as the requests sent, the bytes of the rows add up to the bytes
  -- posted, and every row names the provider, the model and the authorization of the route.
  pub Reach-IsAudited : {w : World} → Reach w → IsAudited adapter w
  Reach-IsAudited start = fresh-IsAudited
  Reach-IsAudited (next r s) = Step-IsAudited s (Reach-IsAudited r)
