-- ===== src/Pii/Evaluation.antt =====
-- janasunani/pipeline/pii_eval.py: the checks of a gold record, and the scoring of predictions.
pub mod Overlaps
pub mod Scored
pub mod Tests
use janasunani.Base.{
  ℕ, zero, suc, ◌+◌, ◌-◌, ◌*◌, Bool, true, false, not, ◌&&◌, ◌||◌, Option, none, some, List, [],
  ◌∷◌, ◌++◌, Text, codes, ltb, leb, ◌==◌, if◌then◌else◌, text_eq, text_discrete, lookup, insert,
  filterb, min, max, map,
}
use janasunani.Dedup.Verify.Jaccard.{Ratio, meets}
use janasunani.Pii.Tagger.{PiiRules, is_government_email, slice}

pub record PiiSpan : Type 0 where
  pub entity : Text
  pub start : ℕ
  pub end : ℕ

pub record GoldExample : Type 0 where
  pub id : Text
  pub text : Text
  pub entities : List PiiSpan

abbrev pub exact_match : PiiSpan → PiiSpan → Bool
exact_match gold predicted = gold.start == predicted.start && gold.end == predicted.end

abbrev pub overlaps : PiiSpan → PiiSpan → Bool
overlaps gold predicted = ltb (max gold.start predicted.start) (min gold.end predicted.end)

-- `(a.start, a.end) <= (b.start, b.end)`
abbrev pub starts_first : PiiSpan → PiiSpan → Bool
starts_first a b = ltb a.start b.start || (a.start == b.start && leb a.end b.end)

-- `sorted(spans, key=lambda s: (s.start, s.end))`, which keeps the order of equal keys.
unfoldable pub insert_span : PiiSpan → List PiiSpan → List PiiSpan
insert_span span [] = span ∷ []
insert_span span (s ∷ spans) =
    let later = insert_span span spans in
    if starts_first span s then span ∷ s ∷ spans else s ∷ later

unfoldable pub sort_spans : List PiiSpan → List PiiSpan
unfolding insert_span
sort_spans [] = []
sort_spans (span ∷ spans) = insert_span span (sort_spans spans)

-- `left.start < right.end and right.start < left.end`
abbrev pub touches : PiiSpan → PiiSpan → Bool
touches left right = ltb left.start right.end && ltb right.start left.end

unfoldable pub touching_neighbours : List PiiSpan → List (PiiSpan × PiiSpan)
touching_neighbours [] = []
touching_neighbours (left ∷ []) = []
touching_neighbours (left ∷ right ∷ spans) =
    let rest = touching_neighbours (right ∷ spans) in
    if touches left right then (left, right) ∷ rest else rest

unfoldable pub overlapping_spans : List PiiSpan → List (PiiSpan × PiiSpan)
unfolding sort_spans touching_neighbours
overlapping_spans spans = touching_neighbours (sort_spans spans)

-- `Counter`
abbrev pub Counter : Type 0
Counter = List (Text × ℕ)

-- `counter[key] += 1`
unfoldable pub increment : Text → Counter → Counter
increment key [] = (key, 1) ∷ []
increment key ((k, n) ∷ counter) =
    let rest = increment key counter in
    if text_eq k key then (k, suc n) ∷ counter else (k, n) ∷ rest

-- `sum(counter.values())`
unfoldable pub sum_values : Counter → ℕ
sum_values [] = 0
sum_values ((key, n) ∷ counter) = n + sum_values counter

unfoldable pub any : (PiiSpan → Bool) → List PiiSpan → Bool
any p [] = false
any p (span ∷ spans) = p span || any p spans

-- The counters of `score_predictions`.
pub record Tally : Type 0 where
  pub gold_counts : Counter
  pub prediction_counts : Counter
  pub overlap_hits : Counter
  pub exact_hits : Counter
  pub coverage_overlap_hits : ℕ
  pub coverage_exact_hits : ℕ
  pub excluded_by_policy : ℕ

abbrev pub no_tally : Tally
no_tally = record {
  gold_counts = [];
  prediction_counts = [];
  overlap_hits = [];
  exact_hits = [];
  coverage_overlap_hits = 0;
  coverage_exact_hits = 0;
  excluded_by_policy = 0;
}

abbrev pub count_if : Bool → Text → Counter → Counter
count_if test key counter = if test then increment key counter else counter

abbrev pub one_if : Bool → ℕ → ℕ
one_if test n = if test then suc n else n

module _ (p : PiiRules) where
  abbrev pub normalize_span : PiiSpan → PiiSpan
  normalize_span span = record span { entity = p.normalize_entity span.entity }

  -- A gold span that policy leaves out.
  unfoldable pub is_out_of_scope : Text → PiiSpan → Bool
  is_out_of_scope text gold =
      text_eq gold.entity (codes "EMAIL") && is_government_email p (slice text gold.start gold.end)

  -- One gold span, normalized, against the predictions of its page.
  unfoldable pub score_gold : List PiiSpan → PiiSpan → Tally → Tally
  unfolding any increment
  score_gold predicted gold t =
      let candidates = filterb (λ c. text_eq c.entity gold.entity) predicted in
      record t {
        gold_counts = increment gold.entity t.gold_counts;
        exact_hits = count_if (any (exact_match gold) candidates) gold.entity t.exact_hits;
        overlap_hits = count_if (any (overlaps gold) candidates) gold.entity t.overlap_hits;
        coverage_exact_hits = one_if (any (exact_match gold) predicted) t.coverage_exact_hits;
        coverage_overlap_hits = one_if (any (overlaps gold) predicted) t.coverage_overlap_hits;
      }

  unfoldable pub score_golds : Text → List PiiSpan → List PiiSpan → Tally → Tally
  unfolding is_out_of_scope score_gold
  score_golds text predicted [] t = t
  score_golds text predicted (gold ∷ golds) t = score_golds text predicted golds (
      if is_out_of_scope text (normalize_span gold)
      then record t { excluded_by_policy = suc t.excluded_by_policy }
      else score_gold predicted (normalize_span gold) t)

  unfoldable pub count_predicted : List PiiSpan → Tally → Tally
  unfolding increment
  count_predicted [] t = t
  count_predicted (span ∷ spans) t =
      count_predicted spans
        (record t { prediction_counts = increment span.entity t.prediction_counts })

  -- `predictions.get(example.id, ())`, normalized.
  abbrev pub predicted_for : List (Text × List PiiSpan) → GoldExample → List PiiSpan
  predicted_for predictions example = elim (lookup text_discrete example.id predictions) [
    | none ↦ []
    | some spans ↦ map normalize_span spans
  ]

  unfoldable pub score_all : List (Text × List PiiSpan) → List GoldExample → Tally → Tally
  unfolding score_golds count_predicted
  score_all predictions [] t = t
  score_all predictions (example ∷ examples) t = score_all predictions examples (
      score_golds example.text (predicted_for predictions example) example.entities
        (count_predicted (predicted_for predictions example) t))
