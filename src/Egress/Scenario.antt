-- ===== src/Egress/Scenario.antt =====
-- The Sarvam client at a scripted provider: one job that is queued, then completed, then read.
use janasunani.Base.{
  ℕ, ◌≡◌, ◌≤◌, ◌<◌, refl, true, [], ◌∷◌, Text, codes, length, if◌then◌else◌, ◌==◌, arith,
  ℕ_discrete, lookup, text_eq,
}
use janasunani.Egress.Http.{str, Payload, object, no_number, responded, Result, ok, json_response}
use janasunani.Egress.Audit.{SarvamAuditContext, digitise_operation}
use janasunani.Egress.Client.{post_json, on_reply, accept_submission, wait_for_submission_slot}
use janasunani.Egress.Client.State.{
  Adapter, Outside, opened, decoded, World, Fault, Call, audit, ◌>>=◌,
}
use janasunani.Egress.Client.Audited.{IsAudited}
use janasunani.Egress.History.{fresh, start, next, digitises, Reach-IsAudited}
use janasunani.Egress.Job.{Document, run_job, read_digitise_result, poll_from}
use janasunani.Egress.Job.Live.{poll_from-ends}
use janasunani.Egress.Job.Resumed.{posts, run_job-resumes}
use janasunani.Egress.Provider.{digitise_call, digitise_or_fallback}
use janasunani.Egress.Provider.Bounds.{digitise_or_fallback-Costs}
use janasunani.Egress.Provider.Outcome.{IsReported, digitise_or_fallback-IsReported}
use janasunani.Egress.Tests.{vision_route}
use janasunani.Egress.Transliteration.{Languages, chunks, transliterate}
use janasunani.Egress.Transliteration.Chunks.{IsChunked}
use janasunani.Egress.Transliteration.Sent.{IsSent, text_url, transliterate-IsSent}

abbrev adapter : Adapter
adapter = record {
  enabled = true;
  api_key = codes "key";
  route = vision_route;
  poll_interval = 5000;
  max_poll_attempts = 4;
  max_submission_attempts = 3;
  submission_backoff = 6000;
}

abbrev queued : Payload
queued = (codes "job_id", str (codes "j1")) ∷ (codes "status", str (codes "queued")) ∷ []

abbrev completed : Payload
completed = (codes "status", str (codes "completed")) ∷ []

-- The first two requests find the job queued, the next one finds it completed.
abbrev answers : ℕ → Payload
answers n = if n == 2 then completed else queued

abbrev scripted : Outside
scripted = record {
  answer = λ w request. responded (record {
    status_code = 200;
    body = object (answers (length w.requests));
    retry_after = no_number;
    content = codes "zip";
  });
  lag = λ w. 10;
  slack = λ w. 0;
  stamp = λ w. codes "now";
  digest = λ parts. codes "digest";
  dumps = λ form. codes "form";
  members = λ archive. opened ((codes "out/page.md", decoded (codes "text")) ∷ []);
}

abbrev grievance : SarvamAuditContext
grievance = record { ticket = codes "t1"; stage = codes "ocr"; document_id = codes "d1" }

abbrev scan : Document
scan = record { filename = codes "scan.pdf"; content = 1 ∷ 2 ∷ 3 ∷ [] }

abbrev call : Call
call = record {
  context = grievance;
  operation = digitise_operation;
  language = codes "od-IN";
  idempotency_key = codes "digest";
}

abbrev romanized : Languages
romanized = record { source = codes "en-IN"; target = codes "od-IN" }

abbrev local : World → Result Fault Text
local w = ok (codes "local")

Reach-IsAudited_example :
    IsAudited adapter
      (digitise_or_fallback scripted adapter scan (codes "od-IN") grievance local fresh).1
Reach-IsAudited_example =
    Reach-IsAudited scripted adapter
      (next start (digitises scan (codes "od-IN") grievance local refl))

digitise_or_fallback-IsReported_example :
    IsReported adapter local
      (run_job scripted adapter
        (digitise_call scripted adapter grievance (codes "od-IN") scan)
        scan
        (read_digitise_result scripted adapter)
        fresh).0
      (digitise_or_fallback scripted adapter scan (codes "od-IN") grievance local fresh)
digitise_or_fallback-IsReported_example =
    digitise_or_fallback-IsReported scripted adapter (omega arith) scan (codes "od-IN") grievance
      local fresh

digitise_or_fallback-Costs_example :
    length
      (digitise_or_fallback scripted adapter scan (codes "od-IN") grievance local fresh).1.requests
    ≤ 9
digitise_or_fallback-Costs_example =
    digitise_or_fallback-Costs scripted adapter scan (codes "od-IN") grievance local fresh

transliterate-IsSent_example :
    IsSent
      (text_url scripted adapter)
      (chunks (codes "pani"))
      fresh
      (transliterate scripted adapter (codes "pani") romanized grievance fresh)
    × IsChunked (codes "pani") (chunks (codes "pani"))
transliterate-IsSent_example =
    transliterate-IsSent scripted adapter romanized grievance (codes "pani") fresh

still_queued : (k : ℕ) → k < 2 → answers k ≡ queued
still_queued k h = ground arith

poll_from-ends_example :
    ((poll_from scripted adapter 4 0 call (codes "j1") fresh).0 ≡ ok completed)
    × (length (poll_from scripted adapter 4 0 call (codes "j1") fresh).1.requests ≡ 3)
unfolding lookup text_eq json_response ℕ_discrete
poll_from-ends_example =
    poll_from-ends scripted adapter call (codes "j1") answers (λ w. refl) 4 0 2 fresh (omega arith)
      (omega arith) (λ k low high w. rw (still_queued k high) refl) (λ w. refl)

abbrev submitted : World
submitted =
    (post_json scripted adapter 3 1 (codes "https://api.sarvam.ai/doc-ai/v1/job/digitise") call
      scan.content fresh).1

run_job-resumes_example :
    posts
      (run_job scripted adapter call scan
        (read_digitise_result scripted adapter)
        submitted).1.requests
    ≡ posts submitted.requests
unfolding post_json on_reply accept_submission wait_for_submission_slot json_response lookup text_eq
    ℕ_discrete ◌>>=◌ audit
run_job-resumes_example =
    run_job-resumes scripted adapter call scan 3 1
      (codes "https://api.sarvam.ai/doc-ai/v1/job/digitise") (codes "j1") fresh submitted queued
      refl refl refl refl
