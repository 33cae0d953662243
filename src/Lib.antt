-- ===== src/Lib.antt =====
-- A verification library for janasunani, the grievance pipeline.
--
-- The program takes a citizen's grievance as text or scanned pages, extracts and redacts it,
-- classifies it, routes it to an office, and adds advisory signals: a spam review, and whether it
-- repeats an earlier filing or belongs to a campaign. An offline job indexes near-duplicates; the
-- serving layer reads contracts that each signal must satisfy. Modelled here are the cores of those
-- parts, in the order in which they depend on each other:
--
-- Base: the shared vocabulary. Numbers are native; `Text` is Python's `str` as code points; a `dict`
-- is an association list in insertion order (`lookup`, `insert`, `set_default`); `Returns o P` says
-- that a fallible computation returns, with a result of which `P` holds. `none` stands for an
-- exception wherever a definition of the model gives an `Option` in place of a value.
--
-- Dedup: janasunani/pipeline/dedup.py and dedup_index.py.
--   UnionFind is `union_find_groups` and its inner functions, with `_find` and `_union` of the index.
--   The loops run on fuel, one more than the length of the dict. That is enough: each step follows a
--   link of the dict that is not to itself, and a well-formed dict has no cycle (Roots, Links, Find),
--   so that the theorems on the results include that the loops end.
--   Verify is `_verify_bucket`: all pairs below the cap, anchors against members from the cap on,
--   with the shingle cache that it fills and the counts that it reports. The parent dict and the
--   cache are passed from call to call as the source shares them. The shingle function and the texts
--   are arguments, since the texts come from the database; Jaccard similarity is an exact fraction,
--   compared without rounding.
--   Run is the part of `_group_duplicates` between the rows and the rows of groups: the blocks and
--   the identity batches, each with its own texts and an empty cache, over one parent dict, and then
--   the group ids. Which tickets share a bucket is an argument of the run.
--
-- Serving: janasunani/serving and janasunani/pipeline/spam.py.
--   Signals is the duplicate contract of schemas.py with the labeller of triage.py; Spam is the
--   bounded scorer, over Collapse, the trigram test of ocr_quality.py; Review is the spam and
--   duplicate review contracts with the reader of older records (Legacy); Triage is the providers,
--   their selection and the status probe. Scores are counted in hundredths, as the source writes
--   them, a stored score may be NaN or a text that is read as a float, and a learned scorer is an
--   argument that answers or raises. What the scorer asks of `re`
--   and of `str.lower` is a record of functions.
--
-- Routing: janasunani/routing. Crosswalk is the lookup over four key widths, Rules the hand-written
--   rules, Mappings the joins over the master tables, Ladder the routers that try them in order,
--   Provider the choice of a router by its setting, with the probe of its first rung.
--   Shares and confidences are in ten-thousandths, to which the source rounds them; `str.casefold`,
--   `str.format` and the float product behind a confidence are a record of functions.
--
-- Egress: janasunani/egress/sarvam.py. Rate is the window of submission slots over a clock in ticks,
--   where a sleep takes the time asked for and some slack; Route is when a provider may be called;
--   Schema is the check of an extraction schema before it is sent.
--   Http is a transport's request and reply, with the reading of JSON bodies; Audit the rows of the
--   log and the question which job a retry may resume; Client the adapter that sends and logs, as a
--   small monad over the log, the window, the clock and the requests sent, with faults as values; Job
--   a submission, its polls and its download; Provider and Transliteration the calls that the
--   pipeline makes, with their local fallback; History the states that such calls can reach. What is
--   outside (transport, sleep, hashing, JSON text, archive reader, Unicode, local engines) is a
--   record of functions, which may answer anything; the transport, the archive reader and the local
--   engine may also raise, and the writes of the log are taken to succeed. The submission attempts and the poll
--   attempts of the adapter are the bounds of its loops, as in the source; the chunks of a text are
--   as many as its length has thousands, rounded up.
--   Times are in milliseconds. The body of a request is its form and bytes, not the multipart text.
--
-- Dedup again: Identity is the canonical phone number and the identity keys, Signature the shingles,
--   the MinHash signature and its bands, where an abstention and an error are results. The hash of a
--   shingle, the permutations and the digests are functions, and so is Unicode normalisation.
--
-- Pii: janasunani/pipeline/stages/pii_tagger.py and pipeline/pii_eval.py. Tagger is the filter of the
--   analyzer's results; its trimming loops run on the characters left in the span, which is enough,
--   since each round takes one. Evaluation is the overlap warning of gold records and the counters
--   of the scoring, up to the report. Ensemble (janasunani/pii/ensemble.py) is the union of what several
--   models label and the queue of the spans on which they differ.
--
-- Not modelled: the models themselves, OCR, databases, HTTP and files; the recognizers of
-- personal data, the inference service, the evaluation scorecards, and the scripts.
pub mod Base
pub mod Dedup
pub mod Egress
pub mod Pii
pub mod Routing
pub mod Serving
