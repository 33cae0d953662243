-- ===== src/Dedup/Verify/Bucket.antt =====
-- One bucket: which pairs the policy scores, how many, and what it joins.
use janasunani.Base.{
  ℕ, zero, suc, ◌+◌, ◌-◌, ◌*◌, ◌≤◌, ◌<◌, ◌≡◌, Bool, true, false, some, List, ◌++◌, arith, length,
  Text, Elem, filterb, take, drop, ltb, if◌then◌else◌, Bool-cases, length-append, length-take,
  length-drop, inl, inr, subst, sym,
}
use mathlib.Core.Bool.{false≢true}
use janasunani.Dedup.UnionFind.Roots.{Joined}
use janasunani.Dedup.UnionFind.Links.{IsRooted}
use janasunani.Base.{Returns, Returns-some}
use janasunani.Dedup.Verify.{Policy, Work, combinations, anchors_of, verify_bucket}
use janasunani.Dedup.Verify.Rounds.{
  Round-append, Round-IsReady, compare_pairs_total, compare_members_total,
}
use janasunani.Dedup.Verify.States.{cross, matches, IsCoherent, IsReady, Round, Just}
use janasunani.Base.{Elem-append_left, Elem-append_right}
use janasunani.Dedup.Verify.Counts.{length-combinations, length-cross}

module _ {K : Type 0} (dec : Discrete K) (o : Policy K) where
  -- The pairs that a bucket scores: all of them below the cap; from the cap on, those of two
  -- anchors and those of an anchor and another member.
  abbrev pub scored : List K → List (K × K)
  scored members =
      let k = anchors_of dec o members in
      if ltb (length members) o.cap
      then combinations members
      else combinations (take k members) ++ cross (take k members) (drop k members)

abbrev start : {K : Type 0} → List (K × K) → List (K × List Text) → Work K
start parent cache = record {
  parent = parent;
  shingle_cache = cache;
  verified = 0;
  comparisons = 0;
}

module _ {K : Type 0} (dec : Discrete K) (o : Policy K) (Rel : K → K → Type 0)
    (same : (x : K) → Rel x x) (trans : (x y z : K) → Rel x y → Rel y z → Rel x z) where
  -- A bucket returns, having scored exactly its pairs.
  pub bucket_total :
      (members : List K) (parent : List (K × K)) (cache : List (K × List Text))
      → IsReady dec o Rel (start parent cache)
      → ((e : K × K) → Elem e (scored dec o members) → Just dec o Rel e)
      → (w : Work K) × (verify_bucket dec o members parent cache
          ≡ some (w, if ltb (length members) o.cap then false else true))
        × Round dec o Rel (start parent cache) (scored dec o members) w
  unfolding verify_bucket
  bucket_total members parent cache v just = elim (Bool-cases (ltb (length members) o.cap)) [
    | inl small ↦
        let (w, done, r) =
          compare_pairs_total dec o Rel same trans (combinations members) _ v (rw small at just) in
        (w, rw (small, done), rw small r)
    | inr large ↦
        let k = anchors_of dec o members in
        let just' : (e : K × K)
            → Elem e (combinations (take k members) ++ cross (take k members) (drop k members))
            → Just dec o Rel e =
          rw large at just in
        let (w1, done, r) =
          compare_pairs_total dec o Rel same trans (combinations (take k members)) _ v
            (λ e i. just' e (Elem-append_left e _ _ i)) in
        let (w2, more, t) =
          compare_members_total dec o Rel same trans (take k members) (drop k members) w1
            (Round-IsReady dec o Rel same trans _ w1 _ r)
            (λ e i. just' e (Elem-append_right e (combinations (take k members)) _ i)) in
        (w2, rw (large, done, more), rw large (Round-append dec o Rel same trans _ w1 w2 _ _ r t))
  ]

mul_le : (k a n : ℕ) → k ≤ a → k * n ≤ a * n
mul_le k a zero h = omega arith
mul_le k a (suc n) h = omega (arith, h, mul_le k a n h)

split_back : (k n : ℕ) → k ≤ n → k + (n - k) ≡ n
split_back k n h = omega (arith, h)

-- The work of the anchors stays under their number times the bucket.
anchor_bound : (a k d c : ℕ) → 2 * c + k ≡ k * k + 2 * (k * d) → k ≤ a → c ≤ a * (k + d)
anchor_bound a k d c e le = omega (arith, e, le, mul_le k a (k + d) le)

module _ {K : Type 0} (dec : Discrete K) (o : Policy K) (members : List K) where
  -- The counts that a bucket reports.
  pub record IsAudited (r : Work K × Bool) : Type 0 where
    pub hits : r.0.verified ≡ length (filterb (matches dec o) (scored dec o members))
    pub joined :
        (a b : K)
        → Elem (a, b) (scored dec o members)
        → matches dec o (a, b) ≡ true
        → Joined dec r.0.parent a b
    pub exhaustive :
        r.1 ≡ false
        → (length members < o.cap)
          × (2 * r.0.comparisons + length members ≡ length members * length members)
    pub anchored :
        r.1 ≡ true
        → let k = anchors_of dec o members in
          (o.cap ≤ length members)
          × (2 * r.0.comparisons + k ≡ k * k + 2 * (k * (length members - k)))
          × (r.0.comparisons ≤ o.anchor_count * length members)

  scored_work_small :
      ltb (length members) o.cap ≡ true
      → 2 * length (scored dec o members) + length members ≡ length members * length members
  scored_work_small small = rw small (length-combinations members)

  scored_work_large :
      ltb (length members) o.cap ≡ false
      → let k = anchors_of dec o members in
        2 * length (scored dec o members) + k ≡ k * k + 2 * (k * (length members - k))
  scored_work_large large = rw large (
      let k = anchors_of dec o members in
      let ek : length (take k members) ≡ k = omega (arith, length-take k members) in
      let pairs =
        subst (λ t. 2 * length (combinations (take k members)) + t ≡ t * t) ek
          (length-combinations (take k members)) in
      let across =
        subst (λ t. length (cross (take k members) (drop k members)) ≡ t * length (drop k members))
          ek (length-cross (take k members) (drop k members)) in
      let across' =
        subst (λ t. length (cross (take k members) (drop k members)) ≡ k * t)
          (length-drop k members) across in
      omega (
        arith,
        pairs,
        across',
        length-append (combinations (take k members)) (cross (take k members) (drop k members)),
      ))

  audited :
      (parent : List (K × K)) (cache : List (K × List Text)) (w : Work K)
      → Round dec o (λ _ _. Unit {0}) (start parent cache) (scored dec o members) w
      → IsAudited (w, if ltb (length members) o.cap then false else true)
  audited parent cache w round = elim (Bool-cases (ltb (length members) o.cap)) [
    | inl small ↦ record {
      hits = omega (arith, round.hits);
      joined = round.joined;
      exhaustive =
          λ _. (ground (arith, small), omega (arith, scored_work_small small, round.counted));
      anchored = λ h. absurd (false≢true (rw small at h));
    }
    | inr large ↦
        let work = scored_work_large large in
        let k = anchors_of dec o members in
        let counts : 2 * w.comparisons + k ≡ k * k + 2 * (k * (length members - k)) =
          omega (arith, work, round.counted) in
        record {
          hits = omega (arith, round.hits);
          joined = round.joined;
          exhaustive = λ h. absurd (false≢true (sym (rw large at h)));
          anchored = λ _. (
            ground (arith, large),
            counts,
            subst (λ t. w.comparisons ≤ o.anchor_count * t)
                (split_back k (length members) (omega arith))
                (anchor_bound o.anchor_count k (length members - k) w.comparisons counts
                  (omega arith)),
          );
        }
  ]

  -- Over a well-formed parent dict and a shingle cache that holds what would be computed,
  -- `verify_bucket` returns; it joins every pair that it scores and that clears the threshold; it
  -- reports as verified the number of those pairs; below the cap it says it was exhaustive and
  -- has made n(n-1)/2 comparisons; from the cap on, with k the anchors, it says it was not and
  -- has made k(k-1)/2 + k(n-k), which is at most the anchor count times n.
  pub verify_bucket-IsAudited :
      (parent : List (K × K)) (cache : List (K × List Text))
      → IsRooted dec parent
      → IsCoherent dec o cache
      → Returns (verify_bucket dec o members parent cache) IsAudited
  verify_bucket-IsAudited parent cache w c =
      let any : K → K → Type 0 = λ _ _. Unit {0} in
      let (r, done, round) =
        bucket_total dec o any (λ _. tt) (λ _ _ _ _ _. tt) members parent cache
          (record { coherent = c; rooted = w; bonded = λ _ _ _. tt })
          (λ e _ _. record { first_stays = λ _ _ _ _ _. tt; second_stays = λ _ _ _ _ _. tt }) in
      Returns-some _ IsAudited _ done (audited parent cache r round)
