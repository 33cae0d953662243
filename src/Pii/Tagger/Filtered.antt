-- ===== src/Pii/Tagger/Filtered.antt =====
-- What the filter of the tagger keeps.
use janasunani.Base.{
  ℕ, ◌-◌, ◌≡◌, ◌≤◌, ◌<◌, ◌⊎◌, inl, inr, refl, subst, Bool, true, false, not, some, List, [], ◌∷◌,
  Text, length, All, Elem, Elem-filterb, filterb-Elem, filterb, ltb, Bool-cases, Option-cases,
  Returns, Returns-map, arith, if◌then◌else◌,
}
use janasunani.Pii.Tagger.{
  RecognizerResult, PiiRules, trim_span, trim_all, is_government, is_excluded, postfilter,
}
use janasunani.Pii.Tagger.Trimmed.{IsInk, IsTrimmed, trim_span-IsTrimmed, trim_span-covers}

-- A result of the analyzer lies within the text.
abbrev pub IsWithin : Text → RecognizerResult → Type 0
IsWithin text result = (result.start ≤ result.end) × (result.end ≤ length text)

-- A kept result is a result under its own label, cut down to characters that begin and end with ink.
abbrev pub IsCut : Text → RecognizerResult → RecognizerResult → Type 0
IsCut text result kept =
    (kept.entity_type ≡ result.entity_type)
    × (kept.score ≡ result.score)
    × (result.start ≤ kept.start)
    × (kept.start < kept.end)
    × (kept.end ≤ result.end)
    × IsInk text kept.start
    × IsInk text (kept.end - 1)

-- Every kept result comes from one of the results.
abbrev pub IsCutFrom : Text → List RecognizerResult → RecognizerResult → Type 0
IsCutFrom text results kept = (r : RecognizerResult) × Elem r results × IsCut text r kept

cut :
    (text : Text) (result : RecognizerResult) (span : ℕ × ℕ)
    → IsTrimmed text result.start result.end span
    → ltb span.0 span.1 ≡ true
    → IsCut text result (record result { start = span.0; end = span.1 })
cut text result span t h =
    (refl, refl, t.from, ground arith, t.until, first t.ink_first, last t.ink_last)
  where
    first : (span.0 ≡ span.1) ⊎ IsInk text span.0 → IsInk text span.0
    first (inl e) = absurd (ground arith)
    first (inr ink) = ink

    last : (span.0 ≡ span.1) ⊎ IsInk text (span.1 - 1) → IsInk text (span.1 - 1)
    last (inl e) = absurd (ground arith)
    last (inr ink) = ink

All-weaken :
    {A : Type 0} (P Q : A → Type 0) (xs : List A) → ((a : A) → P a → Q a) → All P xs → All Q xs
All-weaken P Q [] f h = tt
All-weaken P Q (x ∷ xs) f (h, t) = (f x h, All-weaken P Q xs f t)

-- One result before others that are trimmed.
trimmed_first :
    (text : Text) (result : RecognizerResult) (results : List RecognizerResult) (span : ℕ × ℕ)
    (rest : List RecognizerResult)
    → IsTrimmed text result.start result.end span
    → All (IsCutFrom text results) rest
    → All
        (IsCutFrom text (result ∷ results))
        (if ltb span.0 span.1 then record result { start = span.0; end = span.1 } ∷ rest else rest)
trimmed_first text result results span rest t h =
    let later : All (IsCutFrom text (result ∷ results)) rest =
      All-weaken (IsCutFrom text results) (IsCutFrom text (result ∷ results)) rest
        (λ k c. (c.0, inr c.1, c.2)) h in
    elim (Bool-cases (ltb span.0 span.1)) [
      | inl some' ↦ rw some' ((result, inl refl, cut text result span t some'), later)
      | inr none' ↦ rw none' later
    ]

trim_all-IsCutFrom :
    (text : Text) (results : List RecognizerResult)
    → All (IsWithin text) results
    → Returns (trim_all text results) (All (IsCutFrom text results))
unfolding trim_all
trim_all-IsCutFrom text [] h = tt
trim_all-IsCutFrom text (result ∷ results) (w, h) =
    let t : Returns (trim_span text result.start result.end)
        (IsTrimmed text result.start result.end) =
      trim_span-IsTrimmed text result.start result.end w.0 w.1 in
    let r : Returns (trim_all text results) (All (IsCutFrom text results)) =
      trim_all-IsCutFrom text results h in
    elim (Option-cases (trim_span text result.start result.end)) [
      | inl e ↦ absurd (subst (λ o. Returns o (IsTrimmed text result.start result.end)) e t)
      | inr (span, e) ↦ elim (Option-cases (trim_all text results)) [
        | inl e' ↦ absurd (subst (λ o. Returns o (All (IsCutFrom text results))) e' r)
        | inr (rest, e') ↦
            rw (e, trim_all)
              (rw e' (
                trimmed_first text result results span rest
                  (subst (λ o. Returns o (IsTrimmed text result.start result.end)) e t)
                  (subst (λ o. Returns o (All (IsCutFrom text results))) e' r)))
      ]
    ]

-- A kept result that covers a place.
abbrev pub Covers : ℕ → RecognizerResult → RecognizerResult → Type 0
Covers i result kept = (kept.entity_type ≡ result.entity_type) × (kept.start ≤ i) × (i < kept.end)

abbrev pub IsCovered : ℕ → RecognizerResult → List RecognizerResult → Type 0
IsCovered i result kept = (k : RecognizerResult) × Elem k kept × Covers i result k

IsCovered-first :
    (text : Text) (result r : RecognizerResult) (results rest : List RecognizerResult)
    (span : ℕ × ℕ) (i : ℕ)
    → trim_span text result.start result.end ≡ some span
    → Elem r (result ∷ results)
    → r.start ≤ i
    → i < r.end
    → IsInk text i
    → (Elem r results → IsCovered i r rest)
    → IsCovered i r
        (if ltb span.0 span.1 then record result { start = span.0; end = span.1 } ∷ rest else rest)
IsCovered-first text result r results rest span i e (inl same) low high ink later =
    let here : (span.0 ≤ i) × (i < span.1) =
      trim_span-covers text result.start result.end i span e (ground arith) (ground arith) ink in
    let some' : ltb span.0 span.1 ≡ true = ground arith in
    rw some'
      (record result { start = span.0; end = span.1 }, inl refl, (ground arith, here.0, here.1))
IsCovered-first text result r results rest span i e (inr among) low high ink later =
    elim (Bool-cases (ltb span.0 span.1)) [
      | inl some' ↦ rw some' (let (k, at, c) = later among in (k, inr at, c))
      | inr none' ↦ rw none' (later among)
    ]

trim_all-covers :
    (text : Text) (results kept : List RecognizerResult) (r : RecognizerResult) (i : ℕ)
    → trim_all text results ≡ some kept
    → Elem r results
    → r.start ≤ i
    → i < r.end
    → IsInk text i
    → IsCovered i r kept
unfolding trim_all
trim_all-covers text [] kept r i e among low high ink = absurd among
trim_all-covers text (result ∷ results) kept r i e among low high ink =
    elim (Option-cases (trim_span text result.start result.end)) [
      | inl e' ↦ absurd (ground (arith, e, e'))
      | inr (span, e') ↦ elim (Option-cases (trim_all text results)) [
        | inl e'' ↦ absurd (ground (arith, e, e', e''))
        | inr (rest, e'') ↦
            let out : (if ltb span.0 span.1
                  then record result { start = span.0; end = span.1 } ∷ rest
                  else rest)
                ≡ kept =
              ground (arith, e, e', e'') in
            subst (IsCovered i r) out (
              IsCovered-first text result r results rest span i e' among low high ink
                (λ later. trim_all-covers text results rest r i e'' later low high ink))
      ]
    ]

module _ (p : PiiRules) (text : Text) (results : List RecognizerResult) where
  -- The results that are official e-mail addresses, and those that the filter lets through.
  abbrev pub government : List RecognizerResult
  government = filterb (is_government p text) results

  abbrev pub included : List RecognizerResult
  included = filterb (λ result. not (is_excluded p text government result)) results

  included-IsWithin :
      (rs : List RecognizerResult) (q : RecognizerResult → Bool)
      → All (IsWithin text) rs
      → All (IsWithin text) (filterb q rs)
  included-IsWithin [] q h = tt
  included-IsWithin (r ∷ rs) q (w, h) = elim (Bool-cases (q r)) [
    | inl yes' ↦ rw yes' (w, included-IsWithin rs q h)
    | inr no' ↦ rw no' (included-IsWithin rs q h)
  ]

  -- A kept result is cut from a result that is not excluded.
  abbrev pub IsKept : RecognizerResult → Type 0
  IsKept kept =
      (r : RecognizerResult) × Elem r results
      × (is_excluded p text government r ≡ false)
      × IsCut text r kept

  IsCutFrom-IsKept : (kept : RecognizerResult) → IsCutFrom text included kept → IsKept kept
  IsCutFrom-IsKept kept (r, among, c) =
      let found : Elem r results × (not (is_excluded p text government r) ≡ true) =
        Elem-filterb (λ q. not (is_excluded p text government q)) results r among in
      (r, found.0, ground arith, c)

  -- For results whose spans lie within the text, `postfilter` returns, and each result that it
  -- keeps has the label and the score of a result that is not excluded, lies within its span, is
  -- not empty, and begins and ends with a character that is not whitespace.
  pub postfilter-IsKept :
      All (IsWithin text) results → Returns (postfilter p text results) (All IsKept)
  unfolding postfilter
  postfilter-IsKept h =
      Returns-map (trim_all text included) (All (IsCutFrom text included)) (All IsKept)
        (λ kept c. All-weaken (IsCutFrom text included) IsKept kept IsCutFrom-IsKept c)
        (trim_all-IsCutFrom text included
          (included-IsWithin results (λ result. not (is_excluded p text government result)) h))

  -- If `postfilter` returns, then each character of a result that is not excluded, when it is not
  -- whitespace, is within a kept result of the same label.
  pub postfilter-covers :
      (kept : List RecognizerResult) (r : RecognizerResult) (i : ℕ)
      → postfilter p text results ≡ some kept
      → Elem r results
      → is_excluded p text government r ≡ false
      → r.start ≤ i
      → i < r.end
      → IsInk text i
      → IsCovered i r kept
  unfolding postfilter
  postfilter-covers kept r i e among wanted low high ink =
      trim_all-covers text included kept r i e
        (filterb-Elem (λ q. not (is_excluded p text government q)) results r among (ground arith))
        low high ink
