-- ===== src/Pii/Ensemble/Agreed.antt =====
-- The queue of the ensemble holds the spans on which the members differ.
use janasunani.Base.{
  ℕ, ◌+◌, ◌≡◌, ◌≤◌, refl, sym, ap, ◌∙◌, Bool, true, false, not, ◌&&◌, ◌||◌, List, [], ◌∷◌, ◌++◌,
  Text, ◌==◌, if◌then◌else◌, length, arith, Bool-cases, inl, inr,
}
use janasunani.Pii.Ensemble.{
  Span, MemberSpans, Key, key_eq, key_less, mem, Union, count, bump, bump_all, QueueRow, span_rows,
  queue_rows, row_less, span_key, union_member, union_members, union_spans, member_keys,
  exact_counts, agreement_report, adjudication_queue,
}
use janasunani.Pii.Ensemble.Keys.{
  key_eq_eq, among, among-sort_by, mem-among, mem-append, count-bump, same_mem,
}

mem-member_keys :
    (upper : Text → Text) (key : Key) (spans : List Span)
    → mem key (member_keys upper spans) ≡ among (span_key upper) key spans
unfolding mem member_keys
mem-member_keys upper key [] = refl
mem-member_keys upper key (s ∷ spans) =
    elim (Bool-cases (mem (span_key upper s) (member_keys upper spans))) [
      | inl old ↦
          rw (old, member_keys)
            (ground (
              arith,
              mem-member_keys upper key spans,
              same_mem (span_key upper s) key (member_keys upper spans),
              old,
            ))
      | inr new ↦
          rw (new, member_keys, mem)
            (ap (λ b. key_eq (span_key upper s) key || b) (mem-member_keys upper key spans))
    ]

-- Every key of a member is counted once for it.
count-member_keys :
    (upper : Text → Text) (key : Key) (spans : List Span) (c : List (Key × ℕ))
    → count key (bump_all (member_keys upper spans) c)
      ≡ count key c + (if mem key (member_keys upper spans) then 1 else 0)
unfolding bump_all mem member_keys
count-member_keys upper key [] c = omega arith
count-member_keys upper key (s ∷ spans) c =
    let k : Key = span_key upper s in
    elim (Bool-cases (mem k (member_keys upper spans))) [
      | inl old ↦ rw (old, member_keys) (count-member_keys upper key spans c)
      | inr new ↦
          rw (new, member_keys, bump_all, mem)
            (ground (
              arith,
              count-member_keys upper key spans (bump k c),
              count-bump key k c,
              same_mem k key (member_keys upper spans),
              new,
            ))
    ]

-- How many members have the key.
abbrev pub having : (Text → Text) → Key → List MemberSpans → ℕ
having upper key [] = 0
having upper key (m ∷ members) =
    (if among (span_key upper) key m.spans then 1 else 0) + having upper key members

count-exact_counts :
    (upper : Text → Text) (key : Key) (members : List MemberSpans) (c : List (Key × ℕ))
    → count key (exact_counts upper members c) ≡ count key c + having upper key members
unfolding exact_counts
count-exact_counts upper key [] c = omega arith
count-exact_counts upper key (m ∷ members) c = ground (
  arith,
  count-exact_counts upper key members (bump_all (member_keys upper m.spans) c),
  count-member_keys upper key m.spans c,
  mem-member_keys upper key m.spans,
)

abbrev IsShared : Union → Type 0
IsShared u = (k : Key) → mem k u.seen ≡ mem k u.out

-- From a shared state the list has what it had and the keys `k` for which the test holds.
abbrev Adds : (Key → Bool) → Union → Union → Type 0
Adds test u v = IsShared v × ((k : Key) → mem k v.out ≡ (mem k u.out || test k))

IsShared-add :
    (u : Union) → IsShared u → (key k : Key) → mem k (key ∷ u.seen) ≡ mem k (u.out ++ (key ∷ []))
unfolding mem
IsShared-add u h key k = ground (arith, h k, mem-append k u.out key)

union_member-Adds :
    (upper : Text → Text) (spans : List Span) (u : Union)
    → IsShared u
    → Adds (λ k. among (span_key upper) k spans) u (union_member upper spans u)
unfolding union_member
union_member-Adds upper [] u h = (h, λ k. ground arith)
union_member-Adds upper (s ∷ spans) u h =
    let key : Key = span_key upper s in
    elim (Bool-cases (mem key u.seen)) [
      | inl old ↦
          let later : _ = union_member-Adds upper spans u h in
          rw (old, union_member)
            (later.0, λ k. ground (arith, later.1 k, same_mem key k u.out, old, h key))
      | inr new ↦
          let next : Union = record { seen = key ∷ u.seen; out = u.out ++ (key ∷ []) } in
          let shared : IsShared next = λ k. IsShared-add u h key k in
          let later : _ = union_member-Adds upper spans next shared in
          rw (new, union_member) (later.0, λ k. ground (arith, later.1 k, mem-append k u.out key))
    ]

-- Some member has the key.
abbrev pub any_has : (Text → Text) → Key → List MemberSpans → Bool
any_has upper key [] = false
any_has upper key (m ∷ members) = among (span_key upper) key m.spans || any_has upper key members

abbrev pub all_have : (Text → Text) → Key → List MemberSpans → Bool
all_have upper key [] = true
all_have upper key (m ∷ members) = among (span_key upper) key m.spans && all_have upper key members

union_members-Adds :
    (upper : Text → Text) (members : List MemberSpans) (u : Union)
    → IsShared u
    → Adds (λ k. any_has upper k members) u (union_members upper members u)
unfolding union_members
union_members-Adds upper [] u h = (h, λ k. ground arith)
union_members-Adds upper (m ∷ members) u h =
    let one : _ = union_member-Adds upper m.spans u h in
    let rest : _ = union_members-Adds upper members (union_member upper m.spans u) one.0 in
    (rest.0, λ k. ground (arith, rest.1 k, one.1 k))

mem-union_spans :
    (upper : Text → Text) (key : Key) (members : List MemberSpans)
    → among (λ k. k) key (union_spans upper members) ≡ any_has upper key members
unfolding union_spans mem
mem-union_spans upper key members =
    let none_yet : Union = record { seen = []; out = [] } in
    let union : Union = union_members upper members none_yet in
    among-sort_by (λ k. k) key_less key union.out
    ∙ sym (mem-among key union.out)
    ∙ (union_members-Adds upper members none_yet (λ k. refl)).1 key

having-all_have :
    (upper : Text → Text) (key : Key) (members : List MemberSpans)
    → (having upper key members ≤ length members)
      × ((having upper key members == length members) ≡ all_have upper key members)
having-all_have upper key [] = (omega arith, refl)
having-all_have upper key (m ∷ members) =
    let rest : _ = having-all_have upper key members in
    (ground (arith, rest.0), ground (arith, rest.0, rest.1))

among-queue_rows :
    (key : Key) (n : ℕ) (counts : List (Key × ℕ)) (keys : List Key)
    → among (λ (r : QueueRow). r.key) key (queue_rows n (span_rows n counts keys))
      ≡ (among (λ k. k) key keys && not (count key counts == n))
unfolding queue_rows
among-queue_rows key n counts [] = refl
among-queue_rows key n counts (k ∷ keys) =
    let rest : _ = among-queue_rows key n counts keys in
    let same : key_eq k key ≡ true → count k counts ≡ count key counts =
      λ h. ap (λ x. count x counts) (key_eq_eq k key h) in
    elim (Bool-cases (count k counts == n)) [
      | inl all ↦ rw (all, queue_rows) (ground (arith, rest, same, all))
      | inr some' ↦ rw (some', queue_rows) (ground (arith, rest, same, some'))
    ]

-- Whether a span is in the queue.
abbrev pub is_queued : Key → List QueueRow → Bool
is_queued key rows = among (λ (r : QueueRow). r.key) key rows

-- A span with its label is in the queue exactly when some member has it and not every member has
-- it, however often each lists it.
pub adjudication_queue-any_has :
    (upper : Text → Text) (key : Key) (members : List MemberSpans)
    → is_queued key (adjudication_queue upper members)
      ≡ (any_has upper key members && not (all_have upper key members))
unfolding adjudication_queue agreement_report
adjudication_queue-any_has upper key members =
    let n : ℕ = length members in
    let counts : _ = exact_counts upper members [] in
    let union : List Key = union_spans upper members in
    among-sort_by (λ (r : QueueRow). r.key) row_less key (queue_rows n (span_rows n counts union))
    ∙ among-queue_rows key n counts union
    ∙ ground (
      arith,
      mem-union_spans upper key members,
      count-exact_counts upper key members [],
      (having-all_have upper key members).1,
    )
