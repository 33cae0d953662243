-- ===== src/Dedup/Run/Batches.antt =====
-- The batches of the identity buckets.
use janasunani.Base.{
  ℕ, ◌+◌, ◌≡◌, ◌<◌, ◌⊎◌, inl, inr, refl, ap, ◌∙◌, List, [], ◌∷◌, ◌++◌, All, length, leb, arith,
  Bool-cases,
}
use janasunani.Dedup.Run.{identity_batches}

module _ {K : Type 0} where
  abbrev pub size : List (List K) → ℕ
  size [] = 0
  size (unique ∷ buckets) = length unique + size buckets

  abbrev pub joined_batches : List (List (List K)) → List (List K)
  joined_batches [] = []
  joined_batches (batch ∷ batches) = batch ++ joined_batches batches

  -- Without its last bucket, if it has reached the limit, a batch is below it.
  abbrev pub IsBounded : ℕ → List (List K) → Type 0
  IsBounded limit batch =
      (size batch < limit)
      ⊎ ((init : List (List K)) × (last : List K) × (batch ≡ init ++ last ∷ [])
          × (size init < limit))

  size-append : (xs ys : List (List K)) → size (xs ++ ys) ≡ size xs + size ys
  size-append [] ys = omega arith
  size-append (x ∷ xs) ys = omega (arith, size-append xs ys)

  append_assoc : (xs ys zs : List (List K)) → (xs ++ ys) ++ zs ≡ xs ++ (ys ++ zs)
  append_assoc [] ys zs = refl
  append_assoc (x ∷ xs) ys zs = ap (λ t. x ∷ t) (append_assoc xs ys zs)

  append_nil : (xs : List (List K)) → xs ++ [] ≡ xs
  append_nil [] = refl
  append_nil (x ∷ xs) = ap (λ t. x ∷ t) (append_nil xs)

  batches_from :
      (limit : ℕ) (buckets batch : List (List K)) (n : ℕ)
      → 0 < limit
      → n ≡ size batch
      → n < limit
      → (joined_batches (identity_batches limit buckets batch n) ≡ batch ++ buckets)
        × All (IsBounded limit) (identity_batches limit buckets batch n)
  unfolding identity_batches
  batches_from limit [] batch n pos e h = (refl, (inl (omega (arith, e, h)), tt))
  batches_from limit (unique ∷ buckets) batch n pos e h =
      elim (Bool-cases (leb limit (n + length unique))) [
        | inl full ↦
            let (whole, bounded) = batches_from limit buckets [] 0 pos refl pos in
            rw (full, joined_batches, All)
              (
                ap (λ t. (batch ++ unique ∷ []) ++ t) whole
                    ∙ append_assoc batch (unique ∷ []) buckets,
                (inr (batch, unique, refl, omega (arith, e, h)), bounded),
              )
        | inr room ↦
            let (whole, bounded) =
              batches_from limit buckets (batch ++ unique ∷ []) (n + length unique) pos
                (omega (arith, e, size-append batch (unique ∷ []))) (ground (arith, room)) in
            rw (room, joined_batches, All)
              (whole ∙ append_assoc batch (unique ∷ []) buckets, bounded)
      ]

  -- With a positive limit, the batches of the identity buckets hold all the buckets in their
  -- order, and each batch has fewer tickets than the limit, or would have without its last
  -- bucket.
  pub identity_batches_lem :
      (limit : ℕ) (buckets : List (List K))
      → 0 < limit
      → (joined_batches (identity_batches limit buckets [] 0) ≡ buckets)
        × All (IsBounded limit) (identity_batches limit buckets [] 0)
  identity_batches_lem limit buckets pos = batches_from limit buckets [] 0 pos refl pos
