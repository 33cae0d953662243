-- ===== src/Dedup/UnionFind.antt =====
-- The union-find of janasunani/pipeline/dedup.py (`union_find_groups`) and of dedup_index.py
-- (`_find`, `_union`). `none` is a `KeyError` or a loop that has used up its fuel.
pub mod Roots
pub mod Links
pub mod Find
pub mod Union
pub mod Total
pub mod Ids
pub mod Finished
pub mod Groups
pub mod Least
pub mod Tests
use janasunani.Base.{
  ◌>>=◌, ℕ, zero, suc, Bool, true, false, Option, none, some, List, [], ◌∷◌, ◌≡◌, map, length,
  lookup, insert, set_default, if◌then◌else◌,
}

module _ {K : Type 0} (dec : Discrete K) where
  -- `while parent[root] != root: root = parent[root]`
  pub root_from : ℕ → List (K × K) → K → Option K
  root_from zero p x = none
  root_from (suc n) p x = elim (lookup dec x p) [
    | none ↦ none
    | some y ↦ elim (dec y x) [ yes _ ↦ some x | no _ ↦ root_from n p y ]
  ]

  -- `while parent[x] != root: parent[x], x = root, parent[x]`
  pub compress : ℕ → K → List (K × K) → K → Option (List (K × K))
  compress zero root p x = none
  compress (suc n) root p x = elim (lookup dec x p) [
    | none ↦ none
    | some y ↦ elim (dec y root) [ yes _ ↦ some p | no _ ↦ compress n root (insert dec x root p) y ]
  ]

  -- `find` and `_find`: the root, and the dict with the path compressed.
  pub find : List (K × K) → K → Option (K × List (K × K))
  unfolding root_from compress
  find p x = do
    let q = set_default dec x x p
    let fuel = suc (length q)
    root ← root_from fuel q x
    q' ← compress fuel root q x
    some (root, q')

  -- The root of `b` goes under that of `a` where `less` says so, and else the other way round.
  pub link : (K → K → Bool) → List (K × K) → K → K → List (K × K)
  link less p a b = elim (dec a b) [
    | yes _ ↦ p
    | no _ ↦ if less a b then insert dec b a p else insert dec a b p
  ]

  -- `union` of `union_find_groups`, with `less` the order of the items.
  pub union : (K → K → Bool) → List (K × K) → K → K → Option (List (K × K))
  union less p a b = do
    (root_a, q) ← find p a
    (root_b, q') ← find q b
    some (link less q' root_a root_b)

  -- `_union` of dedup_index.py: the first root always goes under the second.
  unfoldable pub union_first_under : List (K × K) → K → K → Option (List (K × K))
  union_first_under p a b = union (λ _ _. false) p a b

  -- `for a, b in pairs: union(a, b)`
  pub union_all : (K → K → Bool) → List (K × K) → List (K × K) → Option (List (K × K))
  union_all less p [] = some p
  union_all less p ((a, b) ∷ pairs) = union less p a b >>= λ q. union_all less q pairs

  -- `for item in items: parent.setdefault(item, item)`
  pub seed : List K → List (K × K) → List (K × K)
  seed [] p = p
  seed (item ∷ items) p = seed items (set_default dec item item p)

  -- `{item: find(item) for item in parent}`
  unfoldable pub group_ids : List K → List (K × K) → Option (List (K × K))
  group_ids [] p = some []
  group_ids (item ∷ items) p = do
    (root, q) ← find p item
    rest ← group_ids items q
    some ((item, root) ∷ rest)

  abbrev pub keys : List (K × K) → List K
  keys = map (λ e. e.0)

  pub union_find_groups : (K → K → Bool) → List (K × K) → List K → Option (List (K × K))
  union_find_groups less pairs items = do
    p ← union_all less [] pairs
    let p' = seed items p
    group_ids (keys p') p'
