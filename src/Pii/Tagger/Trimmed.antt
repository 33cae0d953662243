-- ===== src/Pii/Tagger/Trimmed.antt =====
-- A trimmed span holds every character of the span that is no whitespace.
use janasunani.Base.{
  ℕ, zero, suc, ◌+◌, ◌-◌, ◌≡◌, ◌≤◌, ◌<◌, ◌⊎◌, inl, inr, refl, subst, true, false, some, [], ◌∷◌,
  Text, length, is_space, Bool-cases, Option-cases, Returns, Returns-map, arith, dec_lt,
}
use janasunani.Pii.Tagger.{char_at, trim_start, trim_end, trim_span}

-- The place holds a character that is no whitespace.
abbrev pub IsInk : Text → ℕ → Type 0
IsInk text i = (c : ℕ) × (char_at text i ≡ some c) × (is_space c ≡ false)

-- A place within the text has a character.
char_at-within : (text : Text) (i : ℕ) → i < length text → (c : ℕ) × (char_at text i ≡ some c)
unfolding char_at
char_at-within [] i h = absurd (omega arith)
char_at-within (c ∷ text) zero h = (c, refl)
char_at-within (c ∷ text) (suc i) h = char_at-within text i (omega arith)

-- From the start on: no ink is passed, and the place reached has ink or is the end.
pub record IsStart (text : Text) (start end first : ℕ) : Type 0 where
  pub from : start ≤ first
  pub until : first ≤ end
  pub ink : (first ≡ end) ⊎ IsInk text first

blank-ink : (text : Text) (i c : ℕ) → char_at text i ≡ some c → is_space c ≡ true → IsInk text i → ⊥
blank-ink text i c e space (d, at, ink) = ground arith

trim_start-IsStart :
    (left : ℕ) (text : Text) (start end : ℕ)
    → start + left ≡ end
    → end ≤ length text
    → Returns (trim_start left text start) (IsStart text start end)
unfolding trim_start
trim_start-IsStart zero text start end h within = record {
  from = omega arith;
  until = omega arith;
  ink = inl (omega arith);
}
trim_start-IsStart (suc left) text start end h within =
    let (c, at) = char_at-within text start (omega arith) in
    elim (Bool-cases (is_space c)) [
      | inl space ↦
          rw (at, trim_start)
            (rw space (
              Returns-map (trim_start left text (suc start)) _ _
                (λ first s. record { from = omega (arith, s.from); until = s.until; ink = s.ink })
                (trim_start-IsStart left text (suc start) end (omega arith) within)))
      | inr ink ↦
          rw (at, trim_start)
            (rw ink (record { from = omega arith; until = omega arith; ink = inr (c, at, ink) }))
    ]

-- No ink of the span stands before the place reached.
trim_start-covers :
    (left : ℕ) (text : Text) (start first i : ℕ)
    → trim_start left text start ≡ some first
    → start ≤ i
    → IsInk text i
    → first ≤ i
unfolding trim_start
trim_start-covers zero text start first i e h ink = ground arith
trim_start-covers (suc left) text start first i e h seen =
    elim (Option-cases (char_at text start)) [
      | inl past ↦ absurd (ground (arith, e, past))
      | inr (c, at) ↦ elim (Bool-cases (is_space c)) [
        | inr ink ↦ ground (arith, e, at, ink)
        | inl space ↦
            let e' : trim_start left text (suc start) ≡ some first = ground (arith, e, at, space) in
            elim (dec_lt start i) [
              | yes later ↦ trim_start-covers left text (suc start) first i e' (omega arith) seen
              | no here ↦
                  let same : i ≡ start = omega arith in
                  absurd (blank-ink text start c at space (subst (IsInk text) same seen))
            ]
      ]
    ]

-- Down from the end: no ink is passed, and the place before the one reached has ink.
pub record IsEnd (text : Text) (start end last : ℕ) : Type 0 where
  pub from : start ≤ last
  pub until : last ≤ end
  pub ink : (last ≡ start) ⊎ IsInk text (last - 1)

trim_end-IsEnd :
    (left : ℕ) (text : Text) (start end : ℕ)
    → start + left ≡ end
    → end ≤ length text
    → Returns (trim_end left text end) (IsEnd text start end)
unfolding trim_end
trim_end-IsEnd zero text start end h within = record {
  from = omega arith;
  until = omega arith;
  ink = inl (omega arith);
}
trim_end-IsEnd (suc left) text start end h within =
    let (c, at) = char_at-within text (end - 1) (omega arith) in
    elim (Bool-cases (is_space c)) [
      | inl space ↦
          rw (at, trim_end)
            (rw space (
              Returns-map (trim_end left text (end - 1)) _ _
                (λ last s. record { from = s.from; until = omega (arith, s.until); ink = s.ink })
                (trim_end-IsEnd left text start (end - 1) (omega arith) (omega arith))))
      | inr ink ↦
          rw (at, trim_end)
            (rw ink (record { from = omega arith; until = omega arith; ink = inr (c, at, ink) }))
    ]

trim_end-covers :
    (left : ℕ) (text : Text) (end last i : ℕ)
    → trim_end left text end ≡ some last
    → i < end
    → IsInk text i
    → i < last
unfolding trim_end
trim_end-covers zero text end last i e h ink = ground arith
trim_end-covers (suc left) text end last i e h seen = elim (Option-cases (char_at text (end - 1))) [
  | inl past ↦ absurd (ground (arith, e, past))
  | inr (c, at) ↦ elim (Bool-cases (is_space c)) [
    | inr ink ↦ ground (arith, e, at, ink)
    | inl space ↦
        let e' : trim_end left text (end - 1) ≡ some last = ground (arith, e, at, space) in
        elim (dec_lt i (end - 1)) [
          | yes earlier ↦ trim_end-covers left text (end - 1) last i e' earlier seen
          | no here ↦
              let same : i ≡ end - 1 = omega arith in
              absurd (blank-ink text (end - 1) c at space (subst (IsInk text) same seen))
        ]
  ]
]

-- The span that is left of one: within it, with ink at both ends or empty.
pub record IsTrimmed (text : Text) (start end : ℕ) (span : ℕ × ℕ) : Type 0 where
  pub from : start ≤ span.0
  pub ordered : span.0 ≤ span.1
  pub until : span.1 ≤ end
  pub ink_first : (span.0 ≡ span.1) ⊎ IsInk text span.0
  pub ink_last : (span.0 ≡ span.1) ⊎ IsInk text (span.1 - 1)

both_ends :
    (text : Text) (start end first last : ℕ)
    → IsStart text start end first
    → IsEnd text first end last
    → IsTrimmed text start end (first, last)
both_ends text start end first last s t = record {
  from = s.from;
  ordered = t.from;
  until = t.until;
  ink_first = elim s.ink [ inl e ↦ inl (omega (arith, t.from, t.until, e)) | inr ink ↦ inr ink ];
  ink_last = elim t.ink [ inl e ↦ inl (omega (arith, e)) | inr ink ↦ inr ink ];
}

pub trim_span-IsTrimmed :
    (text : Text) (start end : ℕ)
    → start ≤ end
    → end ≤ length text
    → Returns (trim_span text start end) (IsTrimmed text start end)
unfolding trim_span
trim_span-IsTrimmed text start end h within =
    let s : Returns (trim_start (end - start) text start) (IsStart text start end) =
      trim_start-IsStart (end - start) text start end (omega arith) within in
    elim (Option-cases (trim_start (end - start) text start)) [
      | inl e ↦ absurd (subst (λ t. Returns t (IsStart text start end)) e s)
      | inr (first, e) ↦
          let s' : IsStart text start end first =
            subst (λ t. Returns t (IsStart text start end)) e s in
          let ends : Returns (trim_end (end - first) text end) (IsEnd text first end) =
            trim_end-IsEnd (end - first) text first end (omega (arith, s'.until)) within in
          elim (Option-cases (trim_end (end - first) text end)) [
            | inl e' ↦ absurd (subst (λ t. Returns t (IsEnd text first end)) e' ends)
            | inr (last, e') ↦
                rw (e, trim_span)
                  (rw e' (
                    both_ends text start end first last s'
                      (subst (λ t. Returns t (IsEnd text first end)) e' ends)))
          ]
    ]

-- Every character of the span that is no whitespace is in what is left.
pub trim_span-covers :
    (text : Text) (start end i : ℕ) (span : ℕ × ℕ)
    → trim_span text start end ≡ some span
    → start ≤ i
    → i < end
    → IsInk text i
    → (span.0 ≤ i) × (i < span.1)
unfolding trim_span
trim_span-covers text start end i span e low high ink =
    elim (Option-cases (trim_start (end - start) text start)) [
      | inl none' ↦ absurd (ground (arith, e, none'))
      | inr (first, f) ↦ elim (Option-cases (trim_end (end - first) text end)) [
        | inl none' ↦ absurd (ground (arith, e, f, none'))
        | inr (last, l) ↦ ground (
          arith,
          e,
          f,
          l,
          trim_start-covers (end - start) text start first i f low ink,
          trim_end-covers (end - first) text end last i l high ink,
        )
      ]
    ]
