-- ===== src/Egress/Rate.antt =====
-- `_wait_for_submission_slot` of janasunani/egress/sarvam.py. Times count ticks of the monotonic
-- clock; a sleep takes the time asked for and some slack, as `time.sleep` documents.
pub mod Paced
use janasunani.Base.{ℕ, ◌+◌, ◌-◌, Bool, true, false, List, [], ◌∷◌, ◌++◌, length, leb}

module _ (window limit : ℕ) where
  -- `while times and now - times[0] >= window: times.popleft()`
  pub purge : ℕ → List ℕ → List ℕ
  purge now [] = []
  purge now (t ∷ times) = elim (leb (t + window) now) [ true ↦ purge now times | false ↦ t ∷ times ]

  -- `max(0.0, window - (now - times[0]))`
  pub wait_seconds : ℕ → List ℕ → ℕ
  wait_seconds now [] = 0
  wait_seconds now (t ∷ times) = t + window - now

  -- The deque after a call at `now`, and the time that it granted.
  pub wait_for_slot : ℕ → ℕ → List ℕ → List ℕ × ℕ
  unfolding purge wait_seconds
  wait_for_slot now slack times =
      let recent = purge now times in
      elim (leb limit (length recent)) [
        | false ↦ (recent ++ now ∷ [], now)
        | true ↦
            let later = now + wait_seconds now recent + slack in
            (purge later recent ++ later ∷ [], later)
      ]

  -- Calls one after another, each some time after the grant before it; the grants, newest first.
  pub run_slots : List (ℕ × ℕ) → List ℕ → List ℕ → ℕ → List ℕ
  unfolding wait_for_slot
  run_slots [] times granted now = granted
  run_slots ((gap, slack) ∷ calls) times granted now =
      let (times', grant) = wait_for_slot (now + gap) slack times in
      run_slots calls times' (grant ∷ granted) grant
