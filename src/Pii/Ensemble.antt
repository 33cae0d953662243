-- ===== src/Pii/Ensemble.antt =====
-- janasunani/pii/ensemble.py: the union of what several models label, how far they agree, and the queue
-- of what is left to a human. The report stands here less its vendors, its rate and its breakdown by
-- entity, which the queue does not read.
pub mod Keys
pub mod Agreed
pub mod Tests
use janasunani.Base.{
  ℕ, zero, suc, ◌+◌, ◌-◌, Bool, true, false, not, ◌&&◌, ◌||◌, List, [], ◌∷◌, ◌++◌, Text, codes, ltb,
  ◌==◌, if◌then◌else◌, text_eq, text_less, length,
}

-- A span as a model gives it.
pub record Span : Type 0 where
  pub start : ℕ
  pub end : ℕ
  pub entity : Text

pub record MemberSpans : Type 0 where
  pub model : Text
  pub vendor : Text
  pub spans : List Span

-- `(start, end, entity)`
pub record Key : Type 0 where
  pub start : ℕ
  pub end : ℕ
  pub entity : Text

abbrev pub key_eq : Key → Key → Bool
key_eq a b = a.start == b.start && (a.end == b.end && text_eq a.entity b.entity)

-- `key in keys`
unfoldable pub mem : Key → List Key → Bool
mem key [] = false
mem key (k ∷ keys) = key_eq k key || mem key keys

-- `sort` by an order: what comes first in the list stays first among equals.
unfoldable pub insert_by : {A : Type 0} → (A → A → Bool) → A → List A → List A
insert_by before x [] = x ∷ []
insert_by before x (y ∷ ys) =
    let later = insert_by before x ys in if before y x then y ∷ later else x ∷ y ∷ ys

unfoldable pub sort_by : {A : Type 0} → (A → A → Bool) → List A → List A
unfolding insert_by
sort_by before [] = []
sort_by before (x ∷ xs) = insert_by before x (sort_by before xs)

unfoldable pub key_less : Key → Key → Bool
key_less a b =
    ltb a.start b.start
    || (a.start == b.start && (ltb a.end b.end || (a.end == b.end && text_less a.entity b.entity)))

-- `seen` and `out` of `union_spans`.
pub record Union : Type 0 where
  pub seen : List Key
  pub out : List Key

-- `Counter`, with 0 for a missing key.
unfoldable pub count : Key → List (Key × ℕ) → ℕ
count key [] = 0
count key ((k, n) ∷ counts) = let rest = count key counts in if key_eq k key then n else rest

-- `counts[key] += 1`
unfoldable pub bump : Key → List (Key × ℕ) → List (Key × ℕ)
bump key [] = (key, 1) ∷ []
bump key ((k, n) ∷ counts) =
    let rest = bump key counts in if key_eq k key then (k, suc n) ∷ counts else (k, n) ∷ rest

unfoldable pub bump_all : List Key → List (Key × ℕ) → List (Key × ℕ)
unfolding bump
bump_all [] counts = counts
bump_all (key ∷ keys) counts = bump_all keys (bump key counts)

-- `sum(1 for v in counts.values() if v == n)`
unfoldable pub values_at : ℕ → List (Key × ℕ) → ℕ
values_at n [] = 0
values_at n ((key, v) ∷ counts) = (if v == n then 1 else 0) + values_at n counts

-- A row of `by_span`.
pub record SpanRow : Type 0 where
  pub key : Key
  pub members_agreeing : ℕ
  pub unanimous : Bool

pub record AgreementReport : Type 0 where
  pub n_members : ℕ
  pub total_union : ℕ
  pub unanimous : ℕ
  pub contested : ℕ
  pub by_span : List SpanRow

-- A row of the queue; its status is always `needs_adjudication`.
pub record QueueRow : Type 0 where
  pub key : Key
  pub members_agreeing : ℕ
  pub n_members : ℕ

abbrev pub span_rows : ℕ → List (Key × ℕ) → List Key → List SpanRow
span_rows n counts [] = []
span_rows n counts (key ∷ keys) =
    record { key = key; members_agreeing = count key counts; unanimous = count key counts == n }
    ∷ span_rows n counts keys

-- The loop of `adjudication_queue`.
unfoldable pub queue_rows : ℕ → List SpanRow → List QueueRow
queue_rows n [] = []
queue_rows n (row ∷ rows) =
    let rest = queue_rows n rows in
    if not row.unanimous
    then record { key = row.key; members_agreeing = row.members_agreeing; n_members = n } ∷ rest
    else rest

-- `(entity, start)`
unfoldable pub row_less : QueueRow → QueueRow → Bool
row_less a b =
    text_less a.key.entity b.key.entity
    || (text_eq a.key.entity b.key.entity && ltb a.key.start b.key.start)

module _ (upper : Text → Text) where
  abbrev pub span_key : Span → Key
  span_key s = record { start = s.start; end = s.end; entity = upper s.entity }

  unfoldable pub union_member : List Span → Union → Union
  unfolding mem
  union_member [] u = u
  union_member (s ∷ spans) u = union_member spans (
      if mem (span_key s) u.seen
      then u
      else record { seen = span_key s ∷ u.seen; out = u.out ++ (span_key s ∷ []) })

  unfoldable pub union_members : List MemberSpans → Union → Union
  unfolding union_member
  union_members [] u = u
  union_members (m ∷ members) u = union_members members (union_member m.spans u)

  unfoldable pub union_spans : List MemberSpans → List Key
  unfolding union_members sort_by key_less
  union_spans members =
      sort_by key_less (union_members members (record { seen = []; out = [] })).out

  -- `{_span_key(s) for s in spans}`, in some order.
  unfoldable pub member_keys : List Span → List Key
  unfolding mem
  member_keys [] = []
  member_keys (s ∷ spans) =
      let rest = member_keys spans in if mem (span_key s) rest then rest else span_key s ∷ rest

  unfoldable pub exact_counts : List MemberSpans → List (Key × ℕ) → List (Key × ℕ)
  unfolding member_keys bump_all
  exact_counts [] counts = counts
  exact_counts (m ∷ members) counts = exact_counts members (bump_all (member_keys m.spans) counts)

  unfoldable pub agreement_report : List MemberSpans → AgreementReport
  unfolding union_spans exact_counts values_at count
  agreement_report members =
      let n = length members in
      let union = union_spans members in
      let counts = exact_counts members [] in
      record {
        n_members = n;
        total_union = length union;
        unanimous = values_at n counts;
        contested = length union - values_at n counts;
        by_span = span_rows n counts union;
      }

  unfoldable pub adjudication_queue : List MemberSpans → List QueueRow
  unfolding agreement_report queue_rows sort_by row_less
  adjudication_queue members =
      let report = agreement_report members in
      sort_by row_less (queue_rows report.n_members report.by_span)
