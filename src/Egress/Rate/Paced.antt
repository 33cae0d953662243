-- ===== src/Egress/Rate/Paced.antt =====
-- No window of time holds more grants than the limit.
use janasunani.Base.{
  ℕ, suc, ◌+◌, ◌-◌, ◌≡◌, ◌≤◌, ◌<◌, refl, List, [], ◌∷◌, ◌++◌, length, length-append, leb, ltb,
  arith, Bool-cases, ◌∙◌, inl, inr, if◌then◌else◌,
}
use janasunani.Egress.Rate.{purge, wait_seconds, wait_for_slot, run_slots}

module _ (window limit : ℕ) where
  -- How many of the times are less than a window before `now`.
  pub recent : ℕ → List ℕ → ℕ
  recent now [] = 0
  recent now (t ∷ times) =
      let rest = recent now times in if ltb now (t + window) then suc rest else rest

  -- At each grant, the grants of the window that ends with it are within the limit.
  abbrev pub IsPaced : List ℕ → Type 0
  IsPaced [] = Unit {0}
  IsPaced (grant ∷ granted) = (recent grant (grant ∷ granted) ≤ limit) × IsPaced granted

  recent-le : (now : ℕ) (times : List ℕ) → recent now times ≤ length times
  unfolding recent
  recent-le now [] = omega arith
  recent-le now (t ∷ times) = ground (arith, recent-le now times)

  recent-append :
      (now t : ℕ) (times : List ℕ) → recent now (times ++ t ∷ []) ≡ recent now (t ∷ times)
  unfolding recent
  recent-append now t [] = refl
  recent-append now t (s ∷ times) = ground (arith, recent-append now t times)

  recent-cons :
      (now t : ℕ) (xs ys : List ℕ)
      → recent now xs ≡ recent now ys
      → recent now (t ∷ xs) ≡ recent now (t ∷ ys)
  unfolding recent
  recent-cons now t xs ys e = ground (arith, e)

  recent-purge :
      (n now : ℕ) (times : List ℕ)
      → now ≤ n
      → recent n (purge window limit now times) ≡ recent n times
  unfolding recent purge
  recent-purge n now [] h = refl
  recent-purge n now (t ∷ times) h = ground (arith, recent-purge n now times h)

  length-purge : (now : ℕ) (times : List ℕ) → length (purge window limit now times) ≤ length times
  unfolding purge
  length-purge now [] = omega arith
  length-purge now (t ∷ times) = ground (arith, length-purge now times)

  -- After the wait, the oldest time has left the window.
  length-purge_later :
      (now slack : ℕ) (times : List ℕ)
      → 0 < length times
      → length (purge window limit (now + wait_seconds window limit now times + slack) times)
        < length times
  unfolding purge wait_seconds
  length-purge_later now slack [] h = absurd (omega (arith, h))
  length-purge_later now slack (t ∷ times) h =
      elim (Bool-cases (leb (t + window) (now + (t + window - now) + slack))) [
        | inl yes' ↦ ground (arith, yes', length-purge (now + (t + window - now) + slack) times)
        | inr no' ↦ absurd (ground (arith, no'))
      ]

  -- What a call leaves: `granted` are all grants up to `now`, `times` those that may still count.
  record IsWindow (times granted : List ℕ) (now : ℕ) : Type 0 where
    kept : (n : ℕ) → now ≤ n → recent n granted ≡ recent n times
    within : length times ≤ limit
    paced : IsPaced granted

  granted_at :
      (times granted : List ℕ) (old now : ℕ)
      → old ≤ now
      → IsWindow times granted old
      → (kept : List ℕ) → ((n : ℕ) → now ≤ n → recent n kept ≡ recent n times)
      → length kept < limit
      → IsWindow (kept ++ now ∷ []) (now ∷ granted) now
  granted_at times granted old now le w q same few = record {
    kept = again;
    within = few';
    paced = (paced', w.paced);
  }
    where
      again : (n : ℕ) → now ≤ n → recent n (now ∷ granted) ≡ recent n (q ++ now ∷ [])
      again n h = omega (
        arith,
        recent-cons n now granted times (w.kept n (omega (arith, le, h))),
        recent-cons n now q times (same n h),
        recent-append n now q,
      )

      few' : length (q ++ now ∷ []) ≤ limit
      few' = omega (arith, few, length-append q (now ∷ []))

      paced' : recent now (now ∷ granted) ≤ limit
      paced' = omega (arith, again now (omega arith), recent-le now (q ++ now ∷ []), few')

  wait_for_slot-IsWindow :
      (now slack old : ℕ) (times granted : List ℕ)
      → 0 < limit
      → old ≤ now
      → IsWindow times granted old
      → IsWindow
          (wait_for_slot window limit now slack times).0
          ((wait_for_slot window limit now slack times).1 ∷ granted)
          (wait_for_slot window limit now slack times).1
  unfolding wait_for_slot
  wait_for_slot-IsWindow now slack old times granted pos le w =
      let q = purge window limit now times in
      elim (Bool-cases (leb limit (length q))) [
        | inr room ↦
            rw (room, wait_for_slot)
              (granted_at times granted old now le w q (λ n h. recent-purge n now times h)
                (ground (arith, room)))
        | inl full ↦
            let later = now + wait_seconds window limit now q + slack in
            let few : length (purge window limit later q) < limit = omega (
              arith,
              length-purge_later now slack q (ground (arith, full, pos)),
              length-purge now times,
              w.within,
            ) in
            rw (full, wait_for_slot)
              (granted_at times granted old later (omega (arith, le)) w (purge window limit later q)
                (λ n h. recent-purge n later q h ∙ recent-purge n now times (omega (arith, h))) few)
      ]

  run_from :
      (calls : List (ℕ × ℕ)) (times granted : List ℕ) (now : ℕ)
      → 0 < limit
      → IsWindow times granted now
      → IsPaced (run_slots window limit calls times granted now)
  unfolding run_slots
  run_from [] times granted now pos w = w.paced
  run_from ((gap, slack) ∷ calls) times granted now pos w =
      run_from calls _ _ _ pos
        (wait_for_slot-IsWindow (now + gap) slack now times granted pos (omega arith) w)

  -- With a positive limit, whatever the times between calls and the slack of the sleeps, at each
  -- grant of a run that starts empty the grants less than a window old, that grant included, are
  -- at most the limit.
  pub run_slots-IsPaced :
      (calls : List (ℕ × ℕ)) (now : ℕ)
      → 0 < limit
      → IsPaced (run_slots window limit calls [] [] now)
  unfolding recent
  run_slots-IsPaced calls now pos =
      run_from calls [] [] now pos (record { kept = λ n h. refl; within = omega arith; paced = tt })
