-- ===== src/Routing/Rules/Matching.antt =====
-- Which rule a request matches.
use mathlib.Core.Bool.{false≢true}
use janasunani.Base.{
  Elem-filterb, filterb-Elem, ◌≡◌, sym, subst, Bool, true, false, Option, none, some, List, [], ◌∷◌,
  Text, Elem, filterb, arith, Bool-cases, Option-cases, inl, inr, ◌∙◌,
}
use janasunani.Routing.{Python, norm}
use janasunani.Routing.Rules.{
  RouteRule, of_subcategory, of_category, without_subcategory, first_where, match_rule,
}

module _ (py : Python) where
  first_where-none :
      (p : RouteRule → Bool) (xs : List RouteRule)
      → first_where py p xs ≡ none
      → (r : RouteRule) → Elem r xs
      → p r ≡ false
  first_where-none p [] h r e = absurd e
  first_where-none p (x ∷ xs) h r (inl e) = ground arith
  first_where-none p (x ∷ xs) h r (inr e) = first_where-none p xs (ground arith) r e

  first_where-some :
      (p : RouteRule → Bool) (xs : List RouteRule) (r : RouteRule)
      → first_where py p xs ≡ some r
      → Elem r xs × (p r ≡ true)
  first_where-some p [] r h = absurd (ground arith)
  first_where-some p (x ∷ xs) r h = elim (Bool-cases (p x)) [
    | inl yes' ↦ (inl (ground arith), ground arith)
    | inr no' ↦ let (e, q) = first_where-some p xs r (ground arith) in (inr e, q)
  ]

  -- The rule is of the category; if any rule of the category names the subcategory, it does; or
  -- else, if any names none, it names none. There is no rule only where none is of the category.
  pub record IsMatch (table : List RouteRule) (category : Text) (subcategory : Option Text)
      (o : Option RouteRule) : Type 0 where
    pub sound :
        (r : RouteRule)
        → o ≡ some r
        → Elem r table × (of_category py (norm py (some category)) r ≡ true)
    pub exact :
        (r t : RouteRule)
        → o ≡ some r
        → Elem t table
        → of_category py (norm py (some category)) t ≡ true
        → of_subcategory py (norm py subcategory) t ≡ true
        → of_subcategory py (norm py subcategory) r ≡ true
    pub general :
        (r t : RouteRule)
        → o ≡ some r
        → Elem t table
        → of_category py (norm py (some category)) t ≡ true
        → without_subcategory py t ≡ true
        → of_subcategory py (norm py subcategory) r ≡ false
        → without_subcategory py r ≡ true
    pub complete :
        (t : RouteRule)
        → o ≡ none
        → Elem t table
        → of_category py (norm py (some category)) t ≡ false

  -- A rule that has been found, with what it outranks.
  hit-IsMatch :
      (table : List RouteRule) (category : Text) (subcategory : Option Text) (r : RouteRule)
      → Elem r table × (of_category py (norm py (some category)) r ≡ true)
      → ((t : RouteRule)
          → Elem t table
          → of_category py (norm py (some category)) t ≡ true
          → of_subcategory py (norm py subcategory) t ≡ true
          → of_subcategory py (norm py subcategory) r ≡ true)
      → ((t : RouteRule)
          → Elem t table
          → of_category py (norm py (some category)) t ≡ true
          → without_subcategory py t ≡ true
          → of_subcategory py (norm py subcategory) r ≡ false
          → without_subcategory py r ≡ true)
      → IsMatch table category subcategory (some r)
  hit-IsMatch table category subcategory r found exact general =
      let S =
        λ (x : RouteRule). Elem x table × (of_category py (norm py (some category)) x ≡ true) in
      let E = λ (x : RouteRule). of_subcategory py (norm py subcategory) x ≡ true in
      let G = λ (x : RouteRule).
        of_subcategory py (norm py subcategory) x ≡ false → without_subcategory py x ≡ true in
      let same : (x : RouteRule) → some r ≡ some x → r ≡ x = λ x e. cc in
      record {
        sound = λ x e. subst S (same x e) found;
        exact = λ x t e i c q. subst E (same x e) (exact t i c q);
        general = λ x t e i c w. subst G (same x e) (general t i c w);
        complete = λ t e. absurd (ground arith);
      }

  -- A rule that `match_rule` gives is in the table and of the requested category; if a rule of
  -- the category names the requested subcategory, the rule given does; if it does not and a rule
  -- of the category names no subcategory, it names none; and if no rule is given, none is of the
  -- category.
  pub match_rule-IsMatch :
      (table : List RouteRule) (category : Text) (subcategory : Option Text)
      → IsMatch table category subcategory (match_rule py table category subcategory)
  unfolding match_rule
  match_rule-IsMatch table category subcategory =
      let p : RouteRule → Bool = of_category py (norm py (some category)) in
      let q : RouteRule → Bool = of_subcategory py (norm py subcategory) in
      let w : RouteRule → Bool = without_subcategory py in
      let rs = filterb p table in
      elim (Option-cases (first_where py q rs)) [
        | inr (r, e) ↦
            let (i, h) = first_where-some q rs r e in
            rw e (
              hit-IsMatch table category subcategory r (Elem-filterb p table r i) (λ _ _ _ _. h)
                (λ _ _ _ _ no'. absurd (ground (arith, h, no'))))
        | inl none_exact ↦ elim (Option-cases (first_where py w rs)) [
          | inr (r, e) ↦
              let (i, h) = first_where-some w rs r e in
              rw (none_exact, e)
                (hit-IsMatch table category subcategory r (Elem-filterb p table r i)
                  (λ t j c u. absurd (
                    false≢true
                      (sym (first_where-none q rs none_exact t (filterb-Elem p table t j c)) ∙ u)))
                  (λ _ _ _ _ _. h))
          | inl none_general ↦ elim (Option-cases (first_where py (λ _. true) rs)) [
            | inr (r, e) ↦
                let (i, _) = first_where-some (λ _. true) rs r e in
                rw (none_exact, none_general, e)
                  (hit-IsMatch table category subcategory r (Elem-filterb p table r i)
                    (λ t j c u. absurd (
                      false≢true (
                        sym (first_where-none q rs none_exact t (filterb-Elem p table t j c)) ∙ u)))
                    (λ t j c u _. absurd (
                      false≢true (
                        sym (first_where-none w rs none_general t (filterb-Elem p table t j c))
                        ∙ u))))
            | inl nothing ↦
                rw (none_exact, none_general, nothing)
                  (record {
                    sound = λ r e. absurd (ground arith);
                    exact = λ r t e. absurd (ground arith);
                    general = λ r t e. absurd (ground arith);
                    complete = λ t _ j. elim (Bool-cases (p t)) [
                      | inl yes' ↦ absurd (
                          false≢true (
                            sym (
                              first_where-none (λ _. true) rs nothing t
                                (filterb-Elem p table t j yes'))))
                      | inr no' ↦ no'
                    ];
                  })
          ]
        ]
      ]
