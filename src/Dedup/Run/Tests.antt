-- ===== src/Dedup/Run/Tests.antt =====
-- A run at concrete tickets.
use janasunani.Base.{◌≡◌, ◌<◌, List, [], ◌∷◌, Text, codes, text_discrete, All, Returns, arith}
use janasunani.Dedup.Verify.{Policy}
use janasunani.Dedup.Run.{group_duplicates, identity_batches}
use janasunani.Dedup.Run.Groups.{IsGrouping, group_duplicates-IsGrouping}
use janasunani.Dedup.Run.Batches.{joined_batches, IsBounded, identity_batches_lem}

abbrev pump_policy : Policy Text
pump_policy = record {
  shingles = λ text. text ∷ [];
  text_by_ticket =
      (codes "a", codes "pump") ∷ (codes "b", codes "pump") ∷ (codes "c", codes "road") ∷ [];
  threshold = record { num = 1; den = 2 };
  cap = 200;
  anchor_count = 5;
}

abbrev three_tickets : List Text
three_tickets = codes "a" ∷ codes "b" ∷ codes "c" ∷ []

abbrev one_batch : List (Policy Text × List (List Text))
one_batch = (pump_policy, three_tickets ∷ []) ∷ []

one_below_three : 0 < 3
one_below_three = omega arith

group_duplicates-IsGrouping_example :
    Returns
      (group_duplicates text_discrete three_tickets one_batch)
      (IsGrouping text_discrete three_tickets one_batch)
group_duplicates-IsGrouping_example =
    group_duplicates-IsGrouping text_discrete three_tickets one_batch

identity_batches_lem_example :
    (joined_batches (identity_batches 3 (three_tickets ∷ three_tickets ∷ []) [] 0)
      ≡ three_tickets ∷ three_tickets ∷ [])
    × All (IsBounded 3) (identity_batches 3 (three_tickets ∷ three_tickets ∷ []) [] 0)
identity_batches_lem_example =
    identity_batches_lem 3 (three_tickets ∷ three_tickets ∷ []) one_below_three
