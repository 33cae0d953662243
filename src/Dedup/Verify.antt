-- ===== src/Dedup/Verify.antt =====
-- `_verify_bucket` of janasunani/pipeline/dedup_index.py, with the Jaccard similarity of dedup.py.
pub mod Jaccard
pub mod States
pub mod Rounds
pub mod Counts
pub mod Bucket
pub mod Tests
use janasunani.Base.{
  ℕ, suc, zero, ◌+◌, ◌-◌, ◌*◌, min, Bool, true, false, Option, none, some, List, [], ◌∷◌, ◌++◌, map,
  lookup, insert, take, drop, length, ltb, if◌then◌else◌, Text, text_discrete,
}
use janasunani.Dedup.UnionFind.{union_first_under, group_ids}
use janasunani.Base.{◌>>=◌}
use Jaccard.{Ratio, jaccard_similarity, meets}

-- `itertools.combinations(xs, 2)`
unfoldable pub combinations : {K : Type 0} → List K → List (K × K)
combinations [] = []
combinations (x ∷ xs) = map (λ y. (x, y)) xs ++ combinations xs

-- `shingles` of dedup.py over the text of a ticket, and the threshold of the run.
pub record Policy (K : Type 0) : Type 0 where
  pub shingles : Text → List Text
  pub text_by_ticket : List (K × Text)
  pub threshold : Ratio
  pub cap : ℕ
  pub anchor_count : ℕ

-- What the loops of a bucket write to.
pub record Work (K : Type 0) : Type 0 where
  pub parent : List (K × K)
  pub shingle_cache : List (K × List Text)
  pub verified : ℕ
  pub comparisons : ℕ

module _ {K : Type 0} (dec : Discrete K) (o : Policy K) where
  -- `text_by_ticket.get(ticket, "")`
  pub text_of : K → Text
  text_of ticket = elim (lookup dec ticket o.text_by_ticket) [ none ↦ [] | some t ↦ t ]

  -- `shingles_for`: from the cache, or computed and put there.
  pub shingles_for : Work K → K → List Text × Work K
  unfolding text_of
  shingles_for w ticket = elim (lookup dec ticket w.shingle_cache) [
    | some cached ↦ (cached, w)
    | none ↦
        let fresh = o.shingles (text_of ticket) in
        (fresh, record w { shingle_cache = insert dec ticket fresh w.shingle_cache })
  ]

  -- The test that each loop ends in, on the two shingle sets.
  pub score : Work K → K → K → List Text → List Text → Option (Work K)
  score w a b sa sb =
      let checked = record w { comparisons = w.comparisons + 1 } in
      if meets o.threshold (jaccard_similarity sa sb)
      then (union_first_under dec w.parent a b >>= λ p.
          some (record checked { parent = p; verified = w.verified + 1 }))
      else some checked

  -- `for a, b in combinations(…, 2)`, one round.
  pub compare_pair : Work K → K → K → Option (Work K)
  unfolding shingles_for score
  compare_pair w a b =
      let (sa, w1) = shingles_for w a in let (sb, w2) = shingles_for w1 b in score w2 a b sa sb

  pub compare_pairs : List (K × K) → Work K → Option (Work K)
  compare_pairs [] w = some w
  compare_pairs ((a, b) ∷ pairs) w = compare_pair w a b >>= compare_pairs pairs

  -- `for anchor in anchors`: the anchor's shingles are kept, the member's are passed in.
  pub compare_anchors : List K → K → List Text → Work K → Option (Work K)
  unfolding shingles_for score
  compare_anchors [] member ms w = some w
  compare_anchors (anchor ∷ anchors) member ms w =
      let (sa, w1) = shingles_for w anchor in
      score w1 anchor member sa ms >>= compare_anchors anchors member ms

  -- A member's shingles are read from the cache and never added to it.
  pub member_shingles : Work K → K → List Text
  unfolding text_of
  member_shingles w member = elim (lookup dec member w.shingle_cache) [
    | some cached ↦ cached
    | none ↦ o.shingles (text_of member)
  ]

  -- `for member in members[len(anchors):]`
  pub compare_members : List K → List K → Work K → Option (Work K)
  unfolding member_shingles
  compare_members anchors [] w = some w
  compare_members anchors (member ∷ members) w =
      compare_anchors anchors member (member_shingles w member) w
      >>= compare_members anchors members

  -- How many members are anchors.
  abbrev pub anchors_of : List K → ℕ
  anchors_of members = min o.anchor_count (length members - 1)

  -- The new state, and whether the large-bucket policy was used; the counts start at zero.
  unfoldable pub verify_bucket :
      List K → List (K × K) → List (K × List Text) → Option (Work K × Bool)
  unfolding compare_pairs compare_members
  verify_bucket members parent cache =
      let start : Work K = record {
        parent = parent;
        shingle_cache = cache;
        verified = 0;
        comparisons = 0;
      } in
      let k = anchors_of members in
      if ltb (length members) o.cap
      then (compare_pairs (combinations members) start >>= λ w. some (w, false))
      else (compare_pairs (combinations (take k members)) start >>= λ w.
          compare_members (take k members) (drop k members) w >>= λ w'. some (w', true))
