-- ===== src/Dedup/Verify/Tests.antt =====
-- A bucket at concrete texts.
use janasunani.Base.{List, [], ◌∷◌, Text, codes, text_discrete, Returns, lookup, arith}
use janasunani.Dedup.UnionFind.Links.{IsRooted}
use janasunani.Dedup.Verify.{Policy, verify_bucket}
use janasunani.Dedup.Verify.States.{IsCoherent}
use janasunani.Dedup.Verify.Bucket.{IsAudited, verify_bucket-IsAudited}

abbrev small_policy : Policy Text
small_policy = record {
  shingles = λ text. text ∷ [];
  text_by_ticket =
      (codes "a", codes "pump") ∷ (codes "b", codes "pump") ∷ (codes "c", codes "road") ∷ [];
  threshold = record { num = 1; den = 2 };
  cap = 3;
  anchor_count = 2;
}

abbrev tickets : List Text
tickets = codes "a" ∷ codes "b" ∷ codes "c" ∷ []

IsRooted-none : IsRooted text_discrete []
unfolding lookup
IsRooted-none x y e = absurd (ground arith)

IsCoherent-none : IsCoherent text_discrete small_policy []
unfolding lookup
IsCoherent-none k s e = absurd (ground arith)

verify_bucket-IsAudited_example :
    Returns
      (verify_bucket text_discrete small_policy tickets [] [])
      (IsAudited text_discrete small_policy tickets)
verify_bucket-IsAudited_example =
    verify_bucket-IsAudited text_discrete small_policy tickets [] [] IsRooted-none IsCoherent-none
