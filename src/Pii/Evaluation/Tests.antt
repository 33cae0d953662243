-- ===== src/Pii/Evaluation/Tests.antt =====
-- One gold record with a name, a number inside it, and an official address, and what was predicted for it.
use janasunani.Base.{
  ◌≡◌, ◌↔◌, refl, false, List, [], ◌∷◌, Text, codes, text_eq, leb, length, arith, strip, is_space,
}
use janasunani.Pii.Tagger.{PiiRules, is_government_email}
use janasunani.Pii.Evaluation.{
  PiiSpan, GoldExample, no_tally, increment, any, overlapping_spans, sort_spans, insert_span,
  touching_neighbours, is_out_of_scope, score_gold, score_golds, score_all,
}
use janasunani.Pii.Evaluation.Overlaps.{AllApart, overlapping_spans-AllApart}
use janasunani.Pii.Evaluation.Scored.{IsBalanced, gold_spans, predicted_spans, score_all-IsBalanced}

abbrev plain : PiiRules
plain = record {
  lower = λ text. text;
  normalize_entity = λ entity. entity;
  is_date_shaped = λ text. leb (length text) 8;
  preceded_by_reference_marker = λ text start. false;
}

abbrev name : PiiSpan
name = record { entity = codes "NAME"; start = 0; end = 4 }

abbrev address : PiiSpan
address = record { entity = codes "EMAIL"; start = 5; end = 13 }

abbrev surname : PiiSpan
surname = record { entity = codes "NAME"; start = 2; end = 4 }

abbrev page : GoldExample
page = record { id = codes "p1"; text = codes "Asha a@nic.in"; entities = address ∷ name ∷ [] }

abbrev predicted : List (Text × List PiiSpan)
predicted = (codes "p1", surname ∷ []) ∷ []

nested_is_listed : overlapping_spans (surname ∷ address ∷ name ∷ []) ≡ (name, surname) ∷ []
unfolding overlapping_spans sort_spans insert_span touching_neighbours
nested_is_listed = refl

-- Two spans inside a third: the second of them overlaps it, and is not listed with it.
abbrev initial : PiiSpan
initial = record { entity = codes "NAME"; start = 1; end = 2 }

only_neighbours_are_listed :
    overlapping_spans (name ∷ initial ∷ surname ∷ []) ≡ (name, initial) ∷ []
unfolding overlapping_spans sort_spans insert_span touching_neighbours
only_neighbours_are_listed = refl

address_is_left_out :
    (score_golds plain page.text (surname ∷ []) page.entities no_tally).excluded_by_policy ≡ 1
unfolding score_golds score_gold is_out_of_scope is_government_email any increment text_eq strip
    is_space
address_is_left_out = refl

overlapping_spans-AllApart_example :
    (overlapping_spans (name ∷ address ∷ []) ≡ []) ↔ AllApart (name ∷ address ∷ [])
overlapping_spans-AllApart_example =
    overlapping_spans-AllApart (name ∷ address ∷ []) (omega arith, (omega arith, tt))

score_all-IsBalanced_example :
    IsBalanced
      (gold_spans (page ∷ []))
      (predicted_spans plain predicted (page ∷ []))
      (score_all plain predicted (page ∷ []) no_tally)
score_all-IsBalanced_example = score_all-IsBalanced plain predicted (page ∷ [])
