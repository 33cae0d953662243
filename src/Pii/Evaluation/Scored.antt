-- ===== src/Pii/Evaluation/Scored.antt =====
-- What the counters of a scoring add up to.
use janasunani.Base.{
  ℕ, suc, ◌+◌, ◌≡◌, ◌≤◌, refl, ◌∙◌, ap, Bool, false, List, [], ◌∷◌, Text, text_eq, length, filterb,
  arith, Bool-cases, inl, inr,
}
use janasunani.Pii.Tagger.{PiiRules}
use janasunani.Pii.Evaluation.{
  PiiSpan, GoldExample, Counter, Tally, no_tally, increment, sum_values, any, exact_match, overlaps,
  count_if, one_if, normalize_span, is_out_of_scope, score_gold, score_golds, count_predicted,
  predicted_for, score_all,
}

sum_values-increment :
    (key : Text) (c : Counter) → sum_values (increment key c) ≡ suc (sum_values c)
unfolding increment sum_values
sum_values-increment key [] = refl
sum_values-increment key ((k, n) ∷ c) = elim (Bool-cases (text_eq k key)) [
  | inl same ↦ rw (same, increment, sum_values) (omega arith)
  | inr other ↦ rw (other, increment, sum_values, sum_values-increment key c) (omega arith)
]

any-filterb :
    (p q : PiiSpan → Bool) (spans : List PiiSpan)
    → any p spans ≡ false
    → any p (filterb q spans) ≡ false
unfolding any
any-filterb p q [] h = refl
any-filterb p q (s ∷ spans) h =
    let rest : any p spans ≡ false = ground (arith, h) in
    let head : p s ≡ false = ground (arith, h) in
    elim (Bool-cases (q s)) [
      | inl kept ↦ rw (kept, filterb, any, head) (any-filterb p q spans rest)
      | inr left ↦ rw (left, filterb) (any-filterb p q spans rest)
    ]

-- The sums of the counters: hits of a type are hits of any type, which are gold spans, and the gold spans
-- with those left out are `n`.
pub record IsBalanced (n m : ℕ) (t : Tally) : Type 0 where
  pub overlap : sum_values t.overlap_hits ≤ t.coverage_overlap_hits
  pub exact : sum_values t.exact_hits ≤ t.coverage_exact_hits
  pub covered : t.coverage_overlap_hits ≤ sum_values t.gold_counts
  pub covered_exactly : t.coverage_exact_hits ≤ sum_values t.gold_counts
  pub counted : sum_values t.gold_counts + t.excluded_by_policy ≡ n
  pub predicted : sum_values t.prediction_counts ≡ m

hit_once :
    (p q : PiiSpan → Bool) (spans : List PiiSpan) (key : Text) (c : Counter) (n : ℕ)
    → sum_values c ≤ n
    → sum_values (count_if (any p (filterb q spans)) key c) ≤ one_if (any p spans) n
hit_once p q spans key c n h = elim (Bool-cases (any p spans)) [
  | inl hit ↦ elim (Bool-cases (any p (filterb q spans))) [
    | inl typed ↦ rw (hit, typed, sum_values-increment key c) (omega arith)
    | inr untyped ↦ rw (hit, untyped) (omega arith)
  ]
  | inr missed ↦ rw (missed, any-filterb p q spans missed) h
]

one_if-≤ : (b : Bool) (n m : ℕ) → n ≤ m → one_if b n ≤ suc m
one_if-≤ b n m h = elim (Bool-cases b) [ inl y ↦ rw y (omega arith) | inr z ↦ rw z (omega arith) ]

score_gold-IsBalanced :
    (p : PiiRules) (predicted : List PiiSpan) (gold : PiiSpan) (n m : ℕ) (t : Tally)
    → IsBalanced n m t
    → IsBalanced (suc n) m (score_gold p predicted gold t)
unfolding score_gold
score_gold-IsBalanced p predicted gold n m t h =
    let more : _ = sum_values-increment gold.entity t.gold_counts in
    record {
      overlap =
          hit_once (overlaps gold) _ predicted gold.entity t.overlap_hits t.coverage_overlap_hits
            h.overlap;
      exact =
          hit_once (exact_match gold) _ predicted gold.entity t.exact_hits t.coverage_exact_hits
            h.exact;
      covered = rw more (one_if-≤ (any (overlaps gold) predicted) _ _ h.covered);
      covered_exactly = rw more (one_if-≤ (any (exact_match gold) predicted) _ _ h.covered_exactly);
      counted = rw more (ground (arith, h.counted));
      predicted = h.predicted;
    }

IsBalanced-at :
    (n n' m m' : ℕ) (t : Tally) → n ≡ n' → m ≡ m' → IsBalanced n m t → IsBalanced n' m' t
IsBalanced-at n n' m m' t e d h = record {
  overlap = h.overlap;
  exact = h.exact;
  covered = h.covered;
  covered_exactly = h.covered_exactly;
  counted = h.counted ∙ e;
  predicted = h.predicted ∙ d;
}

skipped-IsBalanced :
    (n m : ℕ) (t : Tally)
    → IsBalanced n m t
    → IsBalanced (suc n) m (record t { excluded_by_policy = suc t.excluded_by_policy })
skipped-IsBalanced n m t h = record {
  overlap = h.overlap;
  exact = h.exact;
  covered = h.covered;
  covered_exactly = h.covered_exactly;
  counted = ground (arith, h.counted);
  predicted = h.predicted;
}

score_golds-IsBalanced :
    (p : PiiRules) (text : Text) (predicted golds : List PiiSpan) (n m : ℕ) (t : Tally)
    → IsBalanced n m t
    → IsBalanced (length golds + n) m (score_golds p text predicted golds t)
unfolding score_golds
score_golds-IsBalanced p text predicted [] n m t h =
    IsBalanced-at n (0 + n) m m t (omega arith) refl h
score_golds-IsBalanced p text predicted (gold ∷ golds) n m t h =
    let later : (t' : Tally) → IsBalanced (suc n) m t' → _ = λ t' b.
      IsBalanced-at (length golds + suc n) (suc (length golds) + n) m m
        (score_golds p text predicted golds t') (omega arith) refl
        (score_golds-IsBalanced p text predicted golds (suc n) m t' b) in
    elim (Bool-cases (is_out_of_scope p text (normalize_span p gold))) [
      | inl skip ↦ rw (skip, score_golds) (later _ (skipped-IsBalanced n m t h))
      | inr scored ↦
          rw (scored, score_golds)
            (later _ (score_gold-IsBalanced p predicted (normalize_span p gold) n m t h))
    ]

count_predicted-IsBalanced :
    (p : PiiRules) (spans : List PiiSpan) (n m : ℕ) (t : Tally)
    → IsBalanced n m t
    → IsBalanced n (length spans + m) (count_predicted p spans t)
unfolding count_predicted
count_predicted-IsBalanced p [] n m t h = IsBalanced-at n n m (0 + m) t refl (omega arith) h
count_predicted-IsBalanced p (s ∷ spans) n m t h =
    let more : _ = sum_values-increment s.entity t.prediction_counts in
    IsBalanced-at n n (length spans + suc m) (suc (length spans) + m) _ refl (omega arith) (
      count_predicted-IsBalanced p spans n (suc m) _ (record {
        overlap = h.overlap;
        exact = h.exact;
        covered = h.covered;
        covered_exactly = h.covered_exactly;
        counted = h.counted;
        predicted = more ∙ ap (λ k. suc k) h.predicted;
      }))

-- The gold spans of all records, and the predictions for them.
abbrev pub gold_spans : List GoldExample → ℕ
gold_spans [] = 0
gold_spans (e ∷ es) = length e.entities + gold_spans es

abbrev pub predicted_spans : PiiRules → List (Text × List PiiSpan) → List GoldExample → ℕ
predicted_spans p predictions [] = 0
predicted_spans p predictions (e ∷ es) =
    length (predicted_for p predictions e) + predicted_spans p predictions es

score_from-IsBalanced :
    (p : PiiRules) (predictions : List (Text × List PiiSpan)) (es : List GoldExample) (n m : ℕ)
    (t : Tally)
    → IsBalanced n m t
    → IsBalanced
        (gold_spans es + n)
        (predicted_spans p predictions es + m)
        (score_all p predictions es t)
unfolding score_all
score_from-IsBalanced p predictions [] n m t h =
    IsBalanced-at n _ m _ t (omega arith) (omega arith) h
score_from-IsBalanced p predictions (e ∷ es) n m t h =
    let found : _ = predicted_for p predictions e in
    IsBalanced-at (gold_spans es + (length e.entities + n)) _
      (predicted_spans p predictions es + (length found + m)) _ _ (omega arith) (omega arith)
      (score_from-IsBalanced p predictions es _ _ _ (
        score_golds-IsBalanced p e.text found e.entities n (length found + m) _
          (count_predicted-IsBalanced p found n m t h)))

-- In every scoring, the gold spans counted by type and those left out by policy are all gold
-- spans, the predictions counted by type are all predictions for the records, the hits of the
-- same type are in sum at most those of any type, overlapping and exact alike, and the hits of
-- any type are at most the gold spans counted.
pub score_all-IsBalanced :
    (p : PiiRules) (predictions : List (Text × List PiiSpan)) (es : List GoldExample)
    → IsBalanced
        (gold_spans es)
        (predicted_spans p predictions es)
        (score_all p predictions es no_tally)
unfolding sum_values
score_all-IsBalanced p predictions es =
    IsBalanced-at (gold_spans es + 0) _ (predicted_spans p predictions es + 0) _ _ (omega arith)
      (omega arith)
      (score_from-IsBalanced p predictions es 0 0 no_tally (record {
        overlap = omega arith;
        exact = omega arith;
        covered = omega arith;
        covered_exactly = omega arith;
        counted = omega arith;
        predicted = refl;
      }))
