-- ===== src/Pii/Evaluation/Overlaps.antt =====
-- The overlap warning of a gold record is raised exactly where two of its spans overlap.
use janasunani.Base.{
  ◌≡◌, ◌≤◌, ◌<◌, ◌↔◌, refl, false, List, [], ◌∷◌, All, arith, Bool-cases, inl, inr,
}
use janasunani.Pii.Evaluation.{
  PiiSpan, starts_first, insert_span, sort_spans, touches, touching_neighbours, overlapping_spans,
}

-- The two spans share no character.
abbrev pub Apart : PiiSpan → PiiSpan → Type 0
Apart a b = touches a b ≡ false

abbrev pub AllApart : List PiiSpan → Type 0
AllApart [] = Unit {0}
AllApart (span ∷ spans) = All (Apart span) spans × AllApart spans

abbrev pub IsFilled : PiiSpan → Type 0
IsFilled span = span.start < span.end

Apart-sym : (a b : PiiSpan) → Apart a b → Apart b a
Apart-sym a b h = ground arith

All-insert :
    (P : PiiSpan → Type 0) (span : PiiSpan) (spans : List PiiSpan)
    → (P span × All P spans) ↔ All P (insert_span span spans)
unfolding insert_span
All-insert P span [] = (λ h. h, λ h. h)
All-insert P span (s ∷ spans) = elim (Bool-cases (starts_first span s)) [
  | inl first ↦ rw (first, insert_span) (λ h. h, λ h. h)
  | inr later ↦
      rw (later, insert_span)
        (
          λ h. (h.1.0, (All-insert P span spans).0 (h.0, h.1.1)),
          λ h. let back : _ = (All-insert P span spans).1 h.1 in (back.0, (h.0, back.1)),
        )
]

AllApart-insert :
    (span : PiiSpan) (spans : List PiiSpan)
    → AllApart (span ∷ spans) ↔ AllApart (insert_span span spans)
unfolding insert_span
AllApart-insert span [] = (λ h. h, λ h. h)
AllApart-insert span (s ∷ spans) = elim (Bool-cases (starts_first span s)) [
  | inl first ↦ rw (first, insert_span) (λ h. h, λ h. h)
  | inr later ↦
      rw (later, insert_span)
        (
          λ h. (
            (All-insert (Apart s) span spans).0 (Apart-sym span s h.0.0, h.1.0),
            (AllApart-insert span spans).0 (h.0.1, h.1.1),
          ),
          λ h.
              let among : _ = (All-insert (Apart s) span spans).1 h.0 in
              let rest : _ = (AllApart-insert span spans).1 h.1 in
              ((Apart-sym s span among.0, rest.0), (among.1, rest.1)),
        )
]

All-sort : (P : PiiSpan → Type 0) (spans : List PiiSpan) → All P spans ↔ All P (sort_spans spans)
unfolding sort_spans
All-sort P [] = (λ h. h, λ h. h)
All-sort P (span ∷ spans) = (
  λ h. (All-insert P span (sort_spans spans)).0 (h.0, (All-sort P spans).0 h.1),
  λ h.
      let both : _ = (All-insert P span (sort_spans spans)).1 h in
      (both.0, (All-sort P spans).1 both.1),
)

AllApart-sort : (spans : List PiiSpan) → AllApart spans ↔ AllApart (sort_spans spans)
unfolding sort_spans
AllApart-sort [] = (λ h. h, λ h. h)
AllApart-sort (span ∷ spans) = (
  λ h.
      (AllApart-insert span (sort_spans spans)).0
        ((All-sort (Apart span) spans).0 h.0, (AllApart-sort spans).0 h.1),
  λ h.
      let both : _ = (AllApart-insert span (sort_spans spans)).1 h in
      ((All-sort (Apart span) spans).1 both.0, (AllApart-sort spans).1 both.1),
)

-- No span starts before an earlier one.
abbrev Starts : PiiSpan → PiiSpan → Type 0
Starts a b = a.start ≤ b.start

abbrev IsOrdered : List PiiSpan → Type 0
IsOrdered [] = Unit {0}
IsOrdered (span ∷ spans) = All (Starts span) spans × IsOrdered spans

Starts-trans :
    (a b : PiiSpan) (spans : List PiiSpan)
    → Starts a b
    → All (Starts b) spans
    → All (Starts a) spans
Starts-trans a b [] h hs = tt
Starts-trans a b (s ∷ spans) h (t, ts) = (omega arith, Starts-trans a b spans h ts)

insert_span-IsOrdered :
    (span : PiiSpan) (spans : List PiiSpan) → IsOrdered spans → IsOrdered (insert_span span spans)
unfolding insert_span
insert_span-IsOrdered span [] h = (tt, tt)
insert_span-IsOrdered span (s ∷ spans) h = elim (Bool-cases (starts_first span s)) [
  | inl first ↦
      let before : Starts span s = ground arith in
      rw (first, insert_span) ((before, Starts-trans span s spans before h.0), h)
  | inr later ↦
      rw (later, insert_span)
        (
          (All-insert (Starts s) span spans).0 (ground arith, h.0),
          insert_span-IsOrdered span spans h.1,
        )
]

sort_spans-IsOrdered : (spans : List PiiSpan) → IsOrdered (sort_spans spans)
unfolding sort_spans
sort_spans-IsOrdered [] = tt
sort_spans-IsOrdered (span ∷ spans) =
    insert_span-IsOrdered span (sort_spans spans) (sort_spans-IsOrdered spans)

-- What ends before a span starts is apart from all that start later.
Apart-later :
    (a b : PiiSpan) (spans : List PiiSpan)
    → a.end ≤ b.start
    → All (Starts b) spans
    → All (Apart a) spans
Apart-later a b [] h hs = tt
Apart-later a b (s ∷ spans) h (t, ts) = (ground arith, Apart-later a b spans h ts)

neighbours-AllApart :
    (spans : List PiiSpan)
    → IsOrdered spans
    → All IsFilled spans
    → (touching_neighbours spans ≡ []) ↔ AllApart spans
unfolding touching_neighbours
neighbours-AllApart [] o f = (λ h. tt, λ h. refl)
neighbours-AllApart (left ∷ []) o f = (λ h. (tt, tt), λ h. refl)
neighbours-AllApart (left ∷ right ∷ spans) o f =
    let rest : _ = neighbours-AllApart (right ∷ spans) o.1 f.1 in
    elim (Bool-cases (touches left right)) [
      | inl touch ↦
          (λ h. absurd (ground (arith, h, touch)), λ h. absurd (ground (arith, h.0.0, touch)))
      | inr apart ↦ (
        λ h.
            let ends : left.end ≤ right.start = ground (arith, o.0.0, f.0, f.1.0, apart) in
            ((apart, Apart-later left right spans ends o.1.0), rest.0 (ground (arith, h, apart))),
        λ h. rw (apart, touching_neighbours) (rest.1 h.1),
      )
    ]

-- For spans that are not empty, `overlapping_spans` is empty exactly when no two of the spans, at
-- different places of the list, overlap.
pub overlapping_spans-AllApart :
    (spans : List PiiSpan) → All IsFilled spans → (overlapping_spans spans ≡ []) ↔ AllApart spans
unfolding overlapping_spans
overlapping_spans-AllApart spans f =
    let found : _ =
      neighbours-AllApart (sort_spans spans) (sort_spans-IsOrdered spans)
        ((All-sort IsFilled spans).0 f) in
    (λ h. (AllApart-sort spans).1 (found.0 h), λ h. found.1 ((AllApart-sort spans).0 h))
