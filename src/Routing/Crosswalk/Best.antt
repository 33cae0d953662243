-- ===== src/Routing/Crosswalk/Best.antt =====
-- Which rung of the crosswalk answers.
use janasunani.Base.{
  ◌≡◌, ◌≤◌, ◌<◌, refl, sym, ap, subst, Option, none, some, List, [], ◌∷◌, ◌++◌, Text, All, ltb,
  if◌then◌else◌, arith, Bool-cases, inl, inr,
}
use janasunani.Routing.{Python}
use janasunani.Routing.Crosswalk.{
  CrosswalkRoute, Crosswalk, confidence, candidates, best_from, crosswalk_lookup,
}

module _ (py : Python) where
  -- `best` stands in `rs`, after lesser ones only, and none after it is greater.
  pub record IsFirstBest (rs : List CrosswalkRoute) (best : CrosswalkRoute) : Type 0 where
    pub before : List CrosswalkRoute
    pub after : List CrosswalkRoute
    pub split : rs ≡ before ++ best ∷ after
    pub lesser : All (λ r. confidence py r < confidence py best) before
    pub no_greater : All (λ r. confidence py r ≤ confidence py best) after

  best_from-ge :
      (r : CrosswalkRoute) (rs : List CrosswalkRoute)
      → confidence py r ≤ confidence py (best_from py r rs)
  unfolding best_from
  best_from-ge r [] = omega arith
  best_from-ge r (s ∷ rs) = ground (arith, best_from-ge r rs, best_from-ge s rs)

  -- A route that is no better goes behind the first one.
  step_under :
      (r s best : CrosswalkRoute) (rs before after : List CrosswalkRoute)
      → confidence py s ≤ confidence py r
      → r ∷ rs ≡ before ++ best ∷ after
      → All (λ t. confidence py t < confidence py best) before
      → All (λ t. confidence py t ≤ confidence py best) after
      → IsFirstBest (r ∷ s ∷ rs) best
  step_under r s best rs [] after le e u v =
      let here : r ≡ best = cc in
      let behind : rs ≡ after = cc in
      record {
        before = [];
        after = s ∷ after;
        split = cc;
        lesser = tt;
        no_greater = (subst (λ t. confidence py s ≤ confidence py t) here le, v);
      }
  step_under r s best rs (b ∷ before) after le e (h, u) v =
      let here : r ≡ b = cc in
      let behind : rs ≡ before ++ best ∷ after = cc in
      let less : confidence py r < confidence py best =
        subst (λ t. confidence py t < confidence py best) (sym here) h in
      record {
        before = r ∷ s ∷ before;
        after = after;
        split = ap (λ t. r ∷ s ∷ t) behind;
        lesser = (less, (omega (arith, less, le), u));
        no_greater = v;
      }

  best_from-IsFirstBest :
      (r : CrosswalkRoute) (rs : List CrosswalkRoute) → IsFirstBest (r ∷ rs) (best_from py r rs)
  unfolding best_from
  best_from-IsFirstBest r [] = record {
    before = [];
    after = [];
    split = refl;
    lesser = tt;
    no_greater = tt;
  }
  best_from-IsFirstBest r (s ∷ rs) = elim (Bool-cases (ltb (confidence py r) (confidence py s))) [
    | inl yes' ↦
        let f = best_from-IsFirstBest s rs in
        rw yes' (record {
          before = r ∷ f.before;
          after = f.after;
          split = ap (λ t. r ∷ t) f.split;
          lesser = (ground (arith, yes', best_from-ge s rs), f.lesser);
          no_greater = f.no_greater;
        })
    | inr no' ↦
        let f = best_from-IsFirstBest r rs in
        rw no' (
          step_under r s (best_from py r rs) rs f.before f.after (ground (arith, no')) f.split
            f.lesser f.no_greater)
  ]

  -- A hit is the first best of the candidates and clears the floor; without one, none clears it.
  pub record IsLadder (rs : List CrosswalkRoute) (o : Option CrosswalkRoute) : Type 0 where
    pub hit : (r : CrosswalkRoute) → o ≡ some r → IsFirstBest rs r × (3000 ≤ confidence py r)
    pub miss : o ≡ none → All (λ r. confidence py r < 3000) rs

  All-of_first :
      (rs before after : List CrosswalkRoute) (best : CrosswalkRoute)
      → rs ≡ before ++ best ∷ after
      → All (λ t. confidence py t < confidence py best) before
      → All (λ t. confidence py t ≤ confidence py best) after
      → confidence py best < 3000
      → All (λ r. confidence py r < 3000) rs
  All-of_first rs before after best e u v h =
      subst (All (λ r. confidence py r < 3000)) (sym e) (joined before after u v)
    where
      behind :
          (after : List CrosswalkRoute)
          → All (λ t. confidence py t ≤ confidence py best) after
          → All (λ r. confidence py r < 3000) after
      behind [] v = tt
      behind (t ∷ after) (w, v) = (omega (arith, w, h), behind after v)

      joined :
          (before after : List CrosswalkRoute)
          → All (λ t. confidence py t < confidence py best) before
          → All (λ t. confidence py t ≤ confidence py best) after
          → All (λ r. confidence py r < 3000) (before ++ best ∷ after)
      joined [] after u v = (h, behind after v)
      joined (t ∷ before) after (w, u) v = (omega (arith, w, h), joined before after u v)

  IsLadder-of :
      (r : CrosswalkRoute) (rs : List CrosswalkRoute)
      → IsLadder
          (r ∷ rs)
          (if ltb (confidence py (best_from py r rs)) 3000 then none else some (best_from py r rs))
  IsLadder-of r rs =
      let f = best_from-IsFirstBest r rs in
      elim (Bool-cases (ltb (confidence py (best_from py r rs)) 3000)) [
        | inl low ↦ rw low (record {
          hit = λ t e. absurd (ground arith);
          miss = λ _.
              All-of_first (r ∷ rs) f.before f.after (best_from py r rs) f.split f.lesser
                f.no_greater (ground (arith, low));
        })
        | inr high ↦ rw high (record {
          hit = λ t e.
              subst (λ b. IsFirstBest (r ∷ rs) b × (3000 ≤ confidence py b)) (ground (arith, e))
                (f, ground (arith, high));
          miss = λ e. absurd (ground arith);
        })
      ]

  -- A hit of `crosswalk_lookup` stands among the candidates of the request, after candidates of
  -- lower confidence only and before none of higher confidence, and its confidence is at least
  -- 0.3; where there is no hit, every candidate is below 0.3.
  pub crosswalk_lookup-IsLadder :
      (c : Crosswalk) (category : Text) (subcategory district : Option Text)
      → IsLadder
          (candidates py c category subcategory district)
          (crosswalk_lookup py c category subcategory district)
  unfolding crosswalk_lookup
  crosswalk_lookup-IsLadder c category subcategory district =
      by_list (candidates py c category subcategory district)
    where
      by_list :
          (rs : List CrosswalkRoute)
          → IsLadder rs (elim rs [
            | [] ↦ none
            | r ∷ rs ↦
                let best = best_from py r rs in
                if ltb (confidence py best) 3000 then none else some best
          ])
      by_list [] = record { hit = λ r e. absurd (ground arith); miss = λ _. tt }
      by_list (r ∷ rs) = IsLadder-of r rs
