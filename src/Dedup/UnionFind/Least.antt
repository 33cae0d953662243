-- ===== src/Dedup/UnionFind/Least.antt =====
-- Where `union` compares by an order, each group goes by its least member.
use janasunani.Base.{◌≡◌, Bool, false, List, IsOrder}
use janasunani.Dedup.UnionFind.{union_find_groups}
use janasunani.Dedup.UnionFind.Roots.{root_self, root_fixed}
use janasunani.Dedup.UnionFind.Find.{Chain-rel}
use janasunani.Dedup.UnionFind.Total.{Justifies}
use janasunani.Dedup.UnionFind.Finished.{groups_total}
use janasunani.Base.{Returns, Returns-some}
use janasunani.Dedup.UnionFind.Groups.{IsLeast, All-of_Elem}

module _ {K : Type 0} (dec : Discrete K) (less : K → K → Bool) (order : IsOrder less) where
  -- `y` does not come after `x`.
  abbrev NotAfter : K → K → Type 0
  NotAfter x y = less x y ≡ false

  NotAfter-Justifies : (e : K × K) → Justifies dec NotAfter less e
  NotAfter-Justifies e = record {
    first_stays = λ ra rb _ _ t. order.asymm ra rb t;
    second_stays = λ ra rb _ _ f. f;
  }

  -- Where the comparison is a strict weak order (irreflexive, asymmetric, and with a transitive
  -- complement), `union_find_groups` returns, each group id of the result is a member of its own
  -- group, and no member comes before its group id.
  pub union_find_groups-IsLeast :
      (pairs : List (K × K)) (items : List K)
      → Returns (union_find_groups dec less pairs items) (IsLeast dec less)
  union_find_groups-IsLeast pairs items =
      let (g, made, o) =
        groups_total dec NotAfter order.irrefl order.cotrans less pairs items
          (All-of_Elem (Justifies dec NotAfter less) pairs (λ e _. NotAfter-Justifies e)) in
      Returns-some _ (IsLeast dec less) g made (record {
        member = λ a ga at.
            let r = o.read a ga at in
            o.listed ga ga (1, root_self dec 0 o.parent ga (root_fixed dec r.0 o.parent a ga r.1));
        least = λ a ga at.
            let r = o.read a ga at in
            Chain-rel dec NotAfter order.irrefl order.cotrans r.0 o.parent a ga o.bonded r.1;
      })
