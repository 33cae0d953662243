-- ===== src/Dedup/UnionFind/Tests.antt =====
-- Runs of the union-find, and its theorems at concrete inputs.
use janasunani.Base.{
  ◌≡◌, refl, some, List, [], ◌∷◌, Text, codes, text_discrete, text_less, text_less-IsOrder,
  ℕ_discrete, lookup, insert, set_default,
}
use janasunani.Dedup.UnionFind.{
  root_from, compress, find, link, union, union_all, seed, group_ids, union_find_groups,
}
use janasunani.Base.{Returns}
use janasunani.Dedup.UnionFind.Groups.{IsPartition, IsLeast, union_find_groups-connected}
use janasunani.Dedup.UnionFind.Least.{union_find_groups-IsLeast}

abbrev chain_pairs : List (Text × Text)
chain_pairs = (codes "b", codes "a") ∷ (codes "c", codes "b") ∷ []

abbrev chain_items : List Text
chain_items = codes "d" ∷ []

chain_groups :
    union_find_groups text_discrete text_less chain_pairs chain_items
    ≡ some (
        (codes "b", codes "a")
        ∷ (codes "a", codes "a")
        ∷ (codes "c", codes "a")
        ∷ (codes "d", codes "d")
        ∷ [])
unfolding union_find_groups group_ids seed union_all union link find compress root_from lookup
    insert set_default text_less ℕ_discrete
chain_groups = refl

union_find_groups-connected_example :
    Returns
      (union_find_groups text_discrete text_less chain_pairs chain_items)
      (IsPartition text_discrete chain_pairs chain_items)
union_find_groups-connected_example =
    union_find_groups-connected text_discrete text_less chain_pairs chain_items

union_find_groups-IsLeast_example :
    Returns
      (union_find_groups text_discrete text_less chain_pairs chain_items)
      (IsLeast text_discrete text_less)
union_find_groups-IsLeast_example =
    union_find_groups-IsLeast text_discrete text_less text_less-IsOrder chain_pairs chain_items
