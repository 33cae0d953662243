-- ===== src/Base/Dict.antt =====
-- Python's `dict` as an association list in insertion order, over keys with decidable equality.
use mathlib.Core.Path.{◌≡◌, refl}
use mathlib.Core.Logic.{ite}
use mathlib.Core.List.{List, [], ◌∷◌}
use mathlib.Core.Option.{Option, none, some}
use native.Mathlib.Omega.{arith}

module _ {K V : Type 0} (dec : Discrete K) where
  -- `m.get(k)`
  unfoldable pub lookup : K → List (K × V) → Option V
  lookup k [] = none
  lookup k ((j, v) ∷ m) = ite (dec j k) (some v) (lookup k m)

  -- `m[k] = v`: an old key keeps its place.
  unfoldable pub insert : K → V → List (K × V) → List (K × V)
  insert k v [] = (k, v) ∷ []
  insert k v ((j, w) ∷ m) = ite (dec j k) ((j, v) ∷ m) ((j, w) ∷ insert k v m)

  pub lookup-insert :
      (k j : K) (v : V) (m : List (K × V))
      → lookup j (insert k v m) ≡ ite (dec k j) (some v) (lookup j m)
  unfolding lookup insert
  lookup-insert k j v [] = refl
  lookup-insert k j v ((i, w) ∷ m) = ground (arith, lookup-insert k j v m)

  -- `m.setdefault(k, v)`, for its effect.
  unfoldable pub set_default : K → V → List (K × V) → List (K × V)
  set_default k v m = elim (lookup k m) [ none ↦ insert k v m | some _ ↦ m ]

  pub lookup-set_default_old :
      (k j : K) (v w : V) (m : List (K × V))
      → lookup j m ≡ some w
      → lookup j (set_default k v m) ≡ some w
  unfolding set_default
  lookup-set_default_old k j v w m h = ground (arith, lookup-insert k j v m)
