-- ===== src/Pii/Ensemble/Tests.antt =====
-- Two models on one page: they agree on a name, and one of them alone sees a number.
use janasunani.Base.{◌≡◌, refl, not, ◌&&◌, List, [], ◌∷◌, Text, codes, text_eq, text_less}
use janasunani.Pii.Ensemble.{
  Span, MemberSpans, Key, mem, insert_by, sort_by, key_less, row_less, count, bump, bump_all,
  values_at, queue_rows, union_member, union_members, union_spans, member_keys, exact_counts,
  agreement_report, adjudication_queue,
}
use janasunani.Pii.Ensemble.Agreed.{any_has, all_have, is_queued, adjudication_queue-any_has}

abbrev same : Text → Text
same text = text

abbrev name : Span
name = record { start = 4; end = 8; entity = codes "NAME" }

abbrev phone : Span
phone = record { start = 0; end = 3; entity = codes "PHONE" }

abbrev members : List MemberSpans
members =
    record { model = codes "a"; vendor = codes "x"; spans = name ∷ phone ∷ name ∷ [] }
    ∷ record { model = codes "b"; vendor = codes "y"; spans = name ∷ [] }
    ∷ []

abbrev phone_key : Key
phone_key = record { start = 0; end = 3; entity = codes "PHONE" }

only_the_number_is_queued :
    adjudication_queue same members
    ≡ record { key = phone_key; members_agreeing = 1; n_members = 2 } ∷ []
unfolding adjudication_queue agreement_report union_spans union_members union_member member_keys
    exact_counts bump_all bump count values_at queue_rows sort_by insert_by key_less row_less mem
    text_eq text_less
only_the_number_is_queued = refl

adjudication_queue-any_has_example :
    is_queued phone_key (adjudication_queue same members)
    ≡ (any_has same phone_key members && not (all_have same phone_key members))
adjudication_queue-any_has_example = adjudication_queue-any_has same phone_key members
