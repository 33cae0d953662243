-- ===== src/Dedup/Run.antt =====
-- The verification run of `_group_duplicates` in janasunani/pipeline/dedup_index.py: the buckets in
-- batches, each with its texts and a fresh shingle cache, over one parent dict; then the group ids.
pub mod Groups
pub mod Batches
pub mod Tests
use janasunani.Base.{
  ℕ, ◌+◌, Bool, true, false, Option, none, some, List, [], ◌∷◌, ◌++◌, length, leb, if◌then◌else◌,
  Text, ◌>>=◌,
}
use janasunani.Dedup.UnionFind.{group_ids}
use janasunani.Dedup.Verify.{Policy, Work, verify_bucket}

-- What the run carries from bucket to bucket.
pub record Run (K : Type 0) : Type 0 where
  pub parent : List (K × K)
  pub verified : ℕ
  pub comparisons : ℕ
  pub large_buckets : ℕ

abbrev pub Cache : Type 0 → Type 0
Cache K = List (K × List Text)

-- The counts that a bucket adds; a bucket under the large policy counts as one.
abbrev pub added : {K : Type 0} → Run K → Work K × Bool → Run K
added run r = record {
  parent = r.0.parent;
  verified = run.verified + r.0.verified;
  comparisons = run.comparisons + r.0.comparisons;
  large_buckets = run.large_buckets + (if r.1 then 1 else 0);
}

abbrev pub empty_run : {K : Type 0} → Run K
empty_run = record { parent = []; verified = 0; comparisons = 0; large_buckets = 0 }

module _ {K : Type 0} (dec : Discrete K) where
  pub add_bucket : Policy K → List K → Run K → Cache K → Option (Run K × Cache K)
  unfolding verify_bucket
  add_bucket o members run cache =
      verify_bucket dec o members run.parent cache >>= λ r. some (added run r, r.0.shingle_cache)

  pub verify_buckets : Policy K → List (List K) → Run K → Cache K → Option (Run K × Cache K)
  unfolding add_bucket
  verify_buckets o [] run cache = some (run, cache)
  verify_buckets o (members ∷ buckets) run cache =
      add_bucket o members run cache >>= λ r. verify_buckets o buckets r.0 r.1

  -- A block, or a batch of identity buckets: its texts stand in its policy, its cache starts empty.
  pub verify_batches : List (Policy K × List (List K)) → Run K → Option (Run K)
  unfolding verify_buckets
  verify_batches [] run = some run
  verify_batches ((o, buckets) ∷ batches) run =
      verify_buckets o buckets run [] >>= λ r. verify_batches batches r.0

  -- `{ticket: _find(parent, ticket) for ticket in all_tickets}`
  pub group_duplicates : List K → List (Policy K × List (List K)) → Option (List (K × K) × Run K)
  unfolding verify_batches group_ids
  group_duplicates tickets batches = verify_batches batches empty_run >>= λ run.
      group_ids dec tickets run.parent >>= λ groups. some (groups, run)

-- The identity buckets in batches: one is closed when it has `limit` tickets or more; the last is
-- what remains.
pub identity_batches : {K : Type 0} → ℕ → List (List K) → List (List K) → ℕ → List (List (List K))
identity_batches limit [] batch tickets = batch ∷ []
identity_batches limit (unique ∷ buckets) batch tickets =
    elim (leb limit (tickets + length unique)) [
      | true ↦ (batch ++ unique ∷ []) ∷ identity_batches limit buckets [] 0
      | false ↦ identity_batches limit buckets (batch ++ unique ∷ []) (tickets + length unique)
    ]
