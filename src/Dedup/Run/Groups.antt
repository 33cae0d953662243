-- ===== src/Dedup/Run/Groups.antt =====
-- The groups of a run are the components of the pairs that its buckets score as matching.
use janasunani.Base.{
  ◌+◌, ◌≡◌, ◌↔◌, refl, sym, subst, ◌∙◌, Bool, true, false, some, List, [], ◌∷◌, ◌++◌, lookup, inl,
  inr, Elem, length, filterb, Elem-filterb, filterb-Elem, length-append, arith, Returns, ltb,
  if◌then◌else◌, Returns-some,
}
use janasunani.Dedup.UnionFind.Roots.{Root, Joined, root_unique}
use janasunani.Dedup.UnionFind.Links.{IsRooted}
use janasunani.Dedup.UnionFind.Find.{HasLinks, Chain-rel}
use janasunani.Dedup.UnionFind.Union.{Merged, Merged-trans, Merged-Grown}
use janasunani.Dedup.UnionFind.Total.{Justifies}
use janasunani.Dedup.UnionFind.Ids.{group_ids-Listing}
use janasunani.Dedup.UnionFind.Groups.{
  Connected, same, flip, step, Connected-root, Connected-trans, Connected-Justifies, All-of_Elem,
}
use janasunani.Dedup.Verify.{Policy}
use janasunani.Dedup.Verify.States.{IsCoherent, matches}
use janasunani.Base.{Elem-append, Elem-append_left, Elem-append_right}
use janasunani.Dedup.Verify.Bucket.{scored, bucket_total}
use janasunani.Dedup.Run.{
  Run, Cache, add_bucket, verify_buckets, verify_batches, group_duplicates, empty_run, added,
}

module _ {K : Type 0} (dec : Discrete K) where
  -- The pairs that clear the threshold, of those that a bucket scores.
  abbrev pub matched_pairs : Policy K → List K → List (K × K)
  matched_pairs o members = filterb (matches dec o) (scored dec o members)

  abbrev pub bucket_edges : Policy K → List (List K) → List (K × K)
  bucket_edges o [] = []
  bucket_edges o (members ∷ buckets) = matched_pairs o members ++ bucket_edges o buckets

  abbrev pub batch_edges : List (Policy K × List (List K)) → List (K × K)
  batch_edges [] = []
  batch_edges ((o, buckets) ∷ batches) = bucket_edges o buckets ++ batch_edges batches

module _ {K : Type 0} (dec : Discrete K) (Rel : K → K → Type 0) (same' : (x : K) → Rel x x)
    (trans : (x y z : K) → Rel x y → Rel y z → Rel x z) where
  -- `run'` is the run after the matches `edges`.
  record Advanced (run : Run K) (edges : List (K × K)) (run' : Run K) : Type 0 where
    merged : Merged dec Rel run.parent run'.parent
    joined : (e : K × K) → Elem e edges → Joined dec run'.parent e.0 e.1
    counted : run'.verified ≡ run.verified + length edges

  Advanced-append :
      (r r' r'' : Run K) (xs ys : List (K × K))
      → Advanced r xs r'
      → Advanced r' ys r''
      → Advanced r (xs ++ ys) r''
  Advanced-append r r' r'' xs ys a b = record {
    merged = Merged-trans dec Rel r.parent r'.parent r''.parent a.merged b.merged;
    joined = λ e i. elim (Elem-append e xs ys i) [
      | inl h ↦ b.merged.joined e.0 e.1 (a.joined e h)
      | inr h ↦ b.joined e h
    ];
    counted = omega (arith, a.counted, b.counted, length-append xs ys);
  }

  Advanced-none :
      (run : Run K) → IsRooted dec run.parent → HasLinks dec Rel run.parent → Advanced run [] run
  Advanced-none run w h = record {
    merged = record { rooted = w; bonded = h; present = λ y s c. (s, c); joined = λ y z j. j };
    joined = λ e i. absurd i;
    counted = omega arith;
  }

  Justified : List (K × K) → Type 0
  Justified edges = (e : K × K) → Elem e edges → Justifies dec Rel (λ _ _. false) e

  add_bucket_total :
      (o : Policy K) (members : List K) (run : Run K) (cache : Cache K)
      → IsRooted dec run.parent
      → HasLinks dec Rel run.parent
      → IsCoherent dec o cache
      → Justified (matched_pairs dec o members)
      → (run' : Run K) × (cache' : Cache K) × (add_bucket dec o members run cache
          ≡ some (run', cache'))
        × Advanced run (matched_pairs dec o members) run'
        × IsCoherent dec o cache'
  unfolding add_bucket Justified
  add_bucket_total o members run cache w h c just =
      let (r, done, t) =
        bucket_total dec o Rel same' trans members run.parent cache
          (record { coherent = c; rooted = w; bonded = h })
          (λ e i m. just e (filterb-Elem (matches dec o) (scored dec o members) e i m)) in
      (
        added run (r, if ltb (length members) o.cap then false else true),
        r.shingle_cache,
        rw done refl,
        record {
          merged = t.merged;
          joined = λ e i.
              let (j, m) = Elem-filterb (matches dec o) (scored dec o members) e i in
              t.joined e.0 e.1 j m;
          counted = omega (arith, t.hits);
        },
        t.coherent,
      )

  verify_buckets_total :
      (o : Policy K) (buckets : List (List K)) (run : Run K) (cache : Cache K)
      → IsRooted dec run.parent
      → HasLinks dec Rel run.parent
      → IsCoherent dec o cache
      → Justified (bucket_edges dec o buckets)
      → (r : Run K × Cache K) × (verify_buckets dec o buckets run cache ≡ some r)
        × Advanced run (bucket_edges dec o buckets) r.0
  unfolding verify_buckets Justified
  verify_buckets_total o [] run cache w h c just = ((run, cache), refl, Advanced-none run w h)
  verify_buckets_total o (members ∷ buckets) run cache w h c just =
      let (run1, cache1, done, a, c1) =
        add_bucket_total o members run cache w h c (λ e i. just e (Elem-append_left e _ _ i)) in
      let (r, more, b) =
        verify_buckets_total o buckets run1 cache1 a.merged.rooted a.merged.bonded c1
          (λ e i. just e (Elem-append_right e (matched_pairs dec o members) _ i)) in
      (r, rw done more, Advanced-append run run1 r.0 _ _ a b)

  IsCoherent-nil : (o : Policy K) → IsCoherent dec o []
  unfolding lookup
  IsCoherent-nil o k s e = absurd (ground arith)

  verify_batches_total :
      (batches : List (Policy K × List (List K))) (run : Run K)
      → IsRooted dec run.parent
      → HasLinks dec Rel run.parent
      → Justified (batch_edges dec batches)
      → (run' : Run K) × (verify_batches dec batches run ≡ some run')
        × Advanced run (batch_edges dec batches) run'
  unfolding verify_batches Justified
  verify_batches_total [] run w h just = (run, refl, Advanced-none run w h)
  verify_batches_total ((o, buckets) ∷ batches) run w h just =
      let (r, done, a) =
        verify_buckets_total o buckets run [] w h (IsCoherent-nil o)
          (λ e i. just e (Elem-append_left e _ _ i)) in
      let (run', more, b) =
        verify_batches_total batches r.0 a.merged.rooted a.merged.bonded
          (λ e i. just e (Elem-append_right e (bucket_edges dec o buckets) _ i)) in
      (run', rw done more, Advanced-append run r.0 run' _ _ a b)

module _ {K : Type 0} (dec : Discrete K) (tickets : List K)
    (batches : List (Policy K × List (List K))) where
  -- Each ticket has a group, two tickets the same one exactly when the matches connect them, and
  -- the matches are counted.
  pub record IsGrouping (r : List (K × K) × Run K) : Type 0 where
    pub listed : (x : K) → Elem x tickets → (g : K) × (lookup dec x r.0 ≡ some g)
    pub groups :
        (a b ga gb : K)
        → lookup dec a r.0 ≡ some ga
        → lookup dec b r.0 ≡ some gb
        → (ga ≡ gb) ↔ Connected (batch_edges dec batches) a b
    pub counted : r.1.verified ≡ length (batch_edges dec batches)

  IsRooted-nil : IsRooted dec []
  unfolding lookup
  IsRooted-nil x y e = absurd (ground arith)

  HasLinks-nil : HasLinks dec (Connected (batch_edges dec batches)) []
  unfolding lookup
  HasLinks-nil x y e = absurd (ground arith)

  -- For every list of tickets and every list of batches, each with its texts, shingles and
  -- policy, `group_duplicates` returns; every ticket has a group; two tickets with a group have
  -- the same one exactly when they are connected by pairs that the buckets score and that clear
  -- the threshold of their batch; and the count of verified pairs is the number of those pairs.
  pub group_duplicates-IsGrouping : Returns (group_duplicates dec tickets batches) IsGrouping
  unfolding group_duplicates Justified
  group_duplicates-IsGrouping =
      let edges = batch_edges dec batches in
      let first : K → K → Bool = λ _ _. false in
      let trans = Connected-trans dec first edges in
      let (run, done, a) =
        verify_batches_total dec (Connected edges) same trans batches empty_run IsRooted-nil
          HasLinks-nil (Connected-Justifies dec first edges) in
      let (g, made, l) =
        group_ids-Listing dec (Connected edges) same trans tickets run.parent a.merged.rooted
          a.merged.bonded in
      let kept = Merged-Grown dec (Connected edges) run.parent l.parent l.grown in
      let joins =
        Connected-root dec first edges l.parent
          (All-of_Elem _ edges (λ e i. kept.joined e.0 e.1 (a.joined e i))) in
      let down : (x r : K) → Root dec l.parent x r → Connected edges x r =
        λ x r h. Chain-rel dec (Connected edges) same trans h.0 l.parent x r l.grown.bonded h.1 in
      let read : (x r : K) → lookup dec x g ≡ some r → Root dec l.parent x r =
        λ x r at. let (s, at', d) = l.listed x (l.named x r at) in (d.0, d.1 ∙ (sym at' ∙ at)) in
      Returns-some _ IsGrouping (g, run) (rw (done, made) refl)
        (record {
          listed = λ x e. let (r, at, _) = l.listed x e in (r, at);
          groups = λ x y gx gy at at'.
              let rx = read x gx at in
              let ry = read y gy at' in
              (
                λ e.
                    step x gx y (down x gx rx)
                      (subst (λ t. Connected edges t y) (sym e) (flip y gy (down y gy ry))),
                λ c.
                    let ry' = (joins x y c gx).0 rx in
                    root_unique dec ry'.0 ry.0 l.parent y gx gy ry'.1 ry.1,
              );
          counted = omega (arith, a.counted);
        })
