-- ===== src/Dedup/UnionFind/Total.antt =====
-- `union` and the loop over the pairs return, and join each pair.
use janasunani.Base.{
  ◌≡◌, ◌≢◌, refl, Bool, true, false, some, List, [], ◌∷◌, insert, Bool-cases, inl, inr, sym, subst,
  if_pos, if_neg, All, if◌then◌else◌,
}
use janasunani.Dedup.UnionFind.{link, union, union_all}
use janasunani.Dedup.UnionFind.Roots.{Root, Joined, root_fixed}
use janasunani.Dedup.UnionFind.Links.{IsRooted}
use janasunani.Dedup.UnionFind.Find.{HasLinks, find_total, Chain-rel}
use janasunani.Dedup.UnionFind.Union.{Merged, Merged-trans, Merged-Grown, Merged-link, root_moved}

module _ {K : Type 0} (dec : Discrete K) (Rel : K → K → Type 0) (less : K → K → Bool) where
  -- The links that uniting `a` and `b` may add are justified.
  pub record Justifies (pair : K × K) : Type 0 where
    pub first_stays : (ra rb : K) → Rel pair.0 ra → Rel pair.1 rb → less ra rb ≡ true → Rel rb ra
    pub second_stays : (ra rb : K) → Rel pair.0 ra → Rel pair.1 rb → less ra rb ≡ false → Rel ra rb

module _ {K : Type 0} (dec : Discrete K) (Rel : K → K → Type 0) (less : K → K → Bool)
    (same : (x : K) → Rel x x) (trans : (x y z : K) → Rel x y → Rel y z → Rel x z) where
  -- `q'` is a dict after `q` in which `y` and `z` have one root.
  abbrev pub Unites : List (K × K) → List (K × K) → K → K → Type 0
  Unites q q' y z = Merged dec Rel q q' × Joined dec q' y z

  under :
      (q : List (K × K)) (c d y z : K)
      → IsRooted dec q
      → HasLinks dec Rel q
      → d ≢ c
      → Rel c d
      → Root dec q y c
      → Root dec q z d
      → Unites q (insert dec c d q) y z
  under q c d y z w b ne rel hy hz =
      let hc = root_fixed dec hy.0 q y c hy.1 in
      let hd = root_fixed dec hz.0 q z d hz.1 in
      (
        Merged-link dec Rel q c d hc hd ne w b rel,
        (
          d,
          subst (Root dec (insert dec c d q) y) (if_pos (dec c c) refl d c)
              (root_moved dec Rel q c d hc hd ne y c hy),
          subst (Root dec (insert dec c d q) z) (if_neg (dec d c) ne d d)
              (root_moved dec Rel q c d hc hd ne z d hz),
        ),
      )

  link_joins :
      (q : List (K × K)) (a b ra rb : K)
      → IsRooted dec q
      → HasLinks dec Rel q
      → (less ra rb ≡ true → Rel rb ra)
      → (less ra rb ≡ false → Rel ra rb)
      → Root dec q a ra
      → Root dec q b rb
      → Unites q (link dec less q ra rb) a b
  unfolding link
  link_joins q a b ra rb w h first second ha hb =
      elim (dec ra rb)
        as (λ d.
          Unites q
            (elim d [
              | yes _ ↦ q
              | no _ ↦ if less ra rb then insert dec rb ra q else insert dec ra rb q
            ])
            a b) [
              | yes e ↦ (
                record { rooted = w; bonded = h; present = λ y s c. (s, c); joined = λ y z j. j },
                (rb, subst (Root dec q a) e ha, hb),
              )
              | no ne ↦ elim (Bool-cases (less ra rb)) [
                | inl t ↦ rw t (
                    let (m, (r, onto, from)) = under q rb ra b a w h ne (first t) hb ha in
                    (m, (r, from, onto)))
                | inr f ↦ rw f (under q ra rb a b w h (λ e. ne (sym e)) (second f) ha hb)
              ]
            ]

  pub union_total :
      (p : List (K × K)) (a b : K)
      → IsRooted dec p
      → HasLinks dec Rel p
      → Justifies dec Rel less (a, b)
      → (q : List (K × K)) × (union dec less p a b ≡ some q) × Unites p q a b
  unfolding union
  union_total p a b w h just =
      let (ra, q, fa, ga, roota) = find_total dec Rel same trans p a w h in
      let (rb, q', fb, gb, rootb) = find_total dec Rel same trans q b ga.rooted ga.bonded in
      let toa = Chain-rel dec Rel same trans roota.0 q a ra ga.bonded roota.1 in
      let tob = Chain-rel dec Rel same trans rootb.0 q' b rb gb.bonded rootb.1 in
      let (m, j) =
        link_joins q' a b ra rb gb.rooted gb.bonded (just.first_stays ra rb toa tob)
          (just.second_stays ra rb toa tob) (roota.0, gb.roots roota.0 a ra roota.1) rootb in
      (
        link dec less q' ra rb,
        rw (fa, fb),
        (
          Merged-trans dec Rel p q _ (Merged-Grown dec Rel p q ga)
              (Merged-trans dec Rel q q' _ (Merged-Grown dec Rel q q' gb) m),
          j,
        ),
      )

  -- After the loop every pair is joined.
  pub union_all_total :
      (p : List (K × K)) (pairs : List (K × K))
      → IsRooted dec p
      → HasLinks dec Rel p
      → All (Justifies dec Rel less) pairs
      → (q : List (K × K)) × (union_all dec less p pairs ≡ some q)
        × Merged dec Rel p q
        × All (λ e. Joined dec q e.0 e.1) pairs
  unfolding union_all
  union_all_total p [] w h just = (
    p,
    refl,
    Merged-Grown dec Rel p p (record { rooted = w; bonded = h; roots = λ n y s c. c }),
    tt,
  )
  union_all_total p ((a, b) ∷ pairs) w h just =
      let (q, done, (m, j)) = union_total p a b w h just.0 in
      let (q', more, m', js) = union_all_total q pairs m.rooted m.bonded just.1 in
      (q', rw done more, Merged-trans dec Rel p q q' m m', (m'.joined a b j, js))
