-- ===== src/Dedup/Verify/Rounds.antt =====
-- What a run of comparisons does: every pair is scored once, and exactly the matching ones join.
use mathlib.Core.Bool.{false≢true}
use janasunani.Base.{Elem-append, Elem-append_left, Elem-append_right, filterb-append}
use janasunani.Base.{
  ◌+◌, ◌≡◌, refl, sym, subst, ◌∙◌, inl, inr, true, false, some, List, [], ◌∷◌, ◌++◌, arith, lookup,
  Text, Elem, Bool-cases, Option-cases, map, length-append,
}
use janasunani.Dedup.UnionFind.{union_first_under}
use janasunani.Dedup.UnionFind.Roots.{Joined}
use janasunani.Dedup.UnionFind.Links.{IsRooted}
use janasunani.Dedup.UnionFind.Find.{HasLinks}
use janasunani.Dedup.UnionFind.Union.{Merged, Merged-trans}
use janasunani.Dedup.UnionFind.Total.{union_total}
use janasunani.Dedup.Verify.{
  Policy, Work, shingles_for, score, compare_pair, compare_pairs, compare_anchors, member_shingles,
  compare_members,
}
use janasunani.Dedup.Verify.States.{
  true_shingles, matches, IsCoherent, IsReady, Round, Just, cross, shingles_for_lem,
}

module _ {K : Type 0} (dec : Discrete K) (o : Policy K) (Rel : K → K → Type 0)
    (same : (x : K) → Rel x x) (trans : (x y z : K) → Rel x y → Rel y z → Rel x z) where
  pub Round-IsReady :
      (w w' : Work K) (ps : List (K × K)) → Round dec o Rel w ps w' → IsReady dec o Rel w'
  Round-IsReady w w' ps r = record {
    coherent = r.coherent;
    rooted = r.merged.rooted;
    bonded = r.merged.bonded;
  }

  pub Round-none : (w : Work K) → IsReady dec o Rel w → Round dec o Rel w [] w
  Round-none w v = record {
    coherent = v.coherent;
    merged = record {
      rooted = v.rooted;
      bonded = v.bonded;
      present = λ y s c. (s, c);
      joined = λ y z j. j;
    };
    counted = omega arith;
    hits = omega arith;
    joined = λ a b e _. absurd e;
  }

  pub Round-append :
      (w w' w'' : Work K) (ps qs : List (K × K))
      → Round dec o Rel w ps w'
      → Round dec o Rel w' qs w''
      → Round dec o Rel w (ps ++ qs) w''
  Round-append w w' w'' ps qs r t = record {
    coherent = t.coherent;
    merged = Merged-trans dec Rel w.parent w'.parent w''.parent r.merged t.merged;
    counted = omega (arith, r.counted, t.counted, length-append ps qs);
    hits = omega (arith, r.hits, t.hits, filterb-append (matches dec o) ps qs);
    joined = λ a b e m. elim (Elem-append (a, b) ps qs e) [
      | inl h ↦ t.merged.joined a b (r.joined a b h m)
      | inr h ↦ t.joined a b h m
    ];
  }

  -- One score, on the shingles of the two texts.
  score_total :
      (w : Work K) (a b : K) (sa sb : List Text)
      → IsReady dec o Rel w
      → Just dec o Rel (a, b)
      → sa ≡ true_shingles dec o a
      → sb ≡ true_shingles dec o b
      → (w' : Work K) × (score dec o w a b sa sb ≡ some w') × Round dec o Rel w ((a, b) ∷ []) w'
  unfolding score union_first_under
  score_total w a b sa sb v just ea eb =
      rw (ea, eb)
        (elim (Bool-cases (matches dec o (a, b))) [
          | inl yes' ↦
              let (p, done, (m, j)) =
                union_total dec Rel (λ _ _. false) same trans w.parent a b v.rooted v.bonded
                  (just yes') in
              (
                record w { parent = p; verified = w.verified + 1; comparisons = w.comparisons + 1 },
                rw yes' (rw done),
                record {
                  coherent = v.coherent;
                  merged = m;
                  counted = omega arith;
                  hits = rw yes' (omega arith);
                  joined = λ x y e _. elim e [
                    | inl q ↦ subst (λ t. Joined dec p t.0 t.1) (sym q) j
                    | inr h ↦ absurd h
                  ];
                },
              )
          | inr no' ↦ (
            record w { comparisons = w.comparisons + 1 },
            rw no',
            record {
              coherent = v.coherent;
              merged = (Round-none w v).merged;
              counted = omega arith;
              hits = rw no' (omega arith);
              joined = λ x y e m. elim e [
                | inl q ↦ absurd (false≢true (sym no' ∙ subst (λ t. matches dec o t ≡ true) q m))
                | inr h ↦ absurd h
              ];
            },
          )
        ])

  -- Scoring leaves what `shingles_for` changed: only the cache.
  abbrev Sames : Work K → Work K → Type 0
  Sames w w' =
      (w'.parent ≡ w.parent) × (w'.verified ≡ w.verified) × (w'.comparisons ≡ w.comparisons)

  Round-after :
      (w w' w'' : Work K) (ps : List (K × K))
      → Sames w w'
      → Round dec o Rel w' ps w''
      → Round dec o Rel w ps w''
  Round-after w w' w'' ps (p, q, r) t = record {
    coherent = t.coherent;
    merged = subst (λ x. Merged dec Rel x w''.parent) p t.merged;
    counted = omega (arith, t.counted, r);
    hits = omega (arith, t.hits, q);
    joined = t.joined;
  }

  Ready-after :
      (w w' : Work K)
      → IsReady dec o Rel w
      → IsCoherent dec o w'.shingle_cache
      → Sames w w'
      → IsReady dec o Rel w'
  Ready-after w w' v c (p, _, _) = record {
    coherent = c;
    rooted = subst (IsRooted dec) (sym p) v.rooted;
    bonded = subst (HasLinks dec Rel) (sym p) v.bonded;
  }

  compare_pair_total :
      (w : Work K) (a b : K)
      → IsReady dec o Rel w
      → Just dec o Rel (a, b)
      → (w' : Work K) × (compare_pair dec o w a b ≡ some w') × Round dec o Rel w ((a, b) ∷ []) w'
  unfolding compare_pair
  compare_pair_total w a b v just =
      let (ea, ca, pa, va, na) = shingles_for_lem dec o w a v.coherent in
      let w1 = (shingles_for dec o w a).1 in
      let (eb, cb, pb, vb, nb) = shingles_for_lem dec o w1 b ca in
      let w2 = (shingles_for dec o w1 b).1 in
      let sames : Sames w w2 = (pb ∙ pa, vb ∙ va, nb ∙ na) in
      let (w', done, r) = score_total w2 a b _ _ (Ready-after w w2 v cb sames) just ea eb in
      (w', done, Round-after w w2 w' _ sames r)

  -- The loops over the pairs, the anchors and the members.
  pub compare_pairs_total :
      (pairs : List (K × K)) (w : Work K)
      → IsReady dec o Rel w
      → ((e : K × K) → Elem e pairs → Just dec o Rel e)
      → (w' : Work K) × (compare_pairs dec o pairs w ≡ some w') × Round dec o Rel w pairs w'
  unfolding compare_pairs
  compare_pairs_total [] w v just = (w, refl, Round-none w v)
  compare_pairs_total ((a, b) ∷ pairs) w v just =
      let (w1, done, r) = compare_pair_total w a b v (just (a, b) (inl refl)) in
      let (w2, more, t) =
        compare_pairs_total pairs w1 (Round-IsReady w w1 _ r) (λ e i. just e (inr i)) in
      (w2, rw done more, Round-append w w1 w2 ((a, b) ∷ []) pairs r t)

  compare_anchors_total :
      (anchors : List K) (member : K) (ms : List Text) (w : Work K)
      → IsReady dec o Rel w
      → ms ≡ true_shingles dec o member
      → ((e : K × K) → Elem e (map (λ a. (a, member)) anchors) → Just dec o Rel e)
      → (w' : Work K) × (compare_anchors dec o anchors member ms w ≡ some w')
        × Round dec o Rel w (map (λ a. (a, member)) anchors) w'
  unfolding compare_anchors
  compare_anchors_total [] member ms w v e just = (w, refl, Round-none w v)
  compare_anchors_total (a ∷ anchors) member ms w v e just =
      let (ea, ca, pa, va, na) = shingles_for_lem dec o w a v.coherent in
      let w0 = (shingles_for dec o w a).1 in
      let (w1, done, r) =
        score_total w0 a member _ ms (Ready-after w w0 v ca (pa, va, na))
          (just (a, member) (inl refl)) ea e in
      let r' = Round-after w w0 w1 _ (pa, va, na) r in
      let (w2, more, t) =
        compare_anchors_total anchors member ms w1 (Round-IsReady w w1 _ r') e
          (λ x i. just x (inr i)) in
      (w2, rw done more, Round-append w w1 w2 ((a, member) ∷ []) _ r' t)

  member_shingles_lem :
      (w : Work K) (k : K)
      → IsCoherent dec o w.shingle_cache
      → member_shingles dec o w k ≡ true_shingles dec o k
  unfolding member_shingles
  member_shingles_lem w k c = elim (Option-cases (lookup dec k w.shingle_cache)) [
    | inl e ↦ rw (e, member_shingles)
    | inr (s, e) ↦ rw (e, member_shingles) (c k s e)
  ]

  pub compare_members_total :
      (anchors members : List K) (w : Work K)
      → IsReady dec o Rel w
      → ((e : K × K) → Elem e (cross anchors members) → Just dec o Rel e)
      → (w' : Work K) × (compare_members dec o anchors members w ≡ some w')
        × Round dec o Rel w (cross anchors members) w'
  unfolding compare_members
  compare_members_total anchors [] w v just = (w, refl, Round-none w v)
  compare_members_total anchors (member ∷ members) w v just =
      let here = map (λ (a : K). (a, member)) anchors in
      let (w1, done, r) =
        compare_anchors_total anchors member _ w v (member_shingles_lem w member v.coherent)
          (λ e i. just e (Elem-append_left e here _ i)) in
      let (w2, more, t) =
        compare_members_total anchors members w1 (Round-IsReady w w1 _ r)
          (λ e i. just e (Elem-append_right e here _ i)) in
      (w2, rw done more, Round-append w w1 w2 here (cross anchors members) r t)
