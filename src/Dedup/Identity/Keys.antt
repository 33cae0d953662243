-- ===== src/Dedup/Identity/Keys.antt =====
-- When a record has an identity key, and which number it belongs to.
use janasunani.Base.{
  ℕ, ◌≡◌, ◌≢◌, ◌↔◌, ◌⊎◌, inl, inr, refl, sym, ap, subst, ◌∙◌, true, false, Option, none, some, [],
  ◌∷◌, ◌++◌, map, Text, strip, lstrip, is_space, if◌then◌else◌, arith, Option-cases,
}
use mathlib.Core.List.{reverse, reverse-cons}
use janasunani.Serving.Signals.{non_empty}
use janasunani.Dedup.Identity.{
  to_ascii, condense, all_digits, without_plus, canonical_phone_digits, blank_salt, abstained, key,
  Unicode, or_blank, identity_key, tail_digits, name_token, block_token, fragments,
  masked_mobile_tail, mobile_identity_key,
}
use janasunani.Dedup.Identity.Phone.{written, IsNumberOf, canonical_phone_digits_lem}

-- Digits are read as they stand.
condense-digits : (text : Text) → all_digits text ≡ true → condense (map to_ascii text) ≡ text
unfolding condense all_digits is_space
condense-digits [] h = refl
condense-digits (c ∷ text) h = ground (arith, condense-digits text)

written-digits : (text : Text) → all_digits text ≡ true → written text ≡ text
unfolding all_digits
written-digits [] h = ap without_plus (condense-digits [] h)
written-digits (c ∷ text) h = ap without_plus (condense-digits (c ∷ text) h) ∙ ground arith

-- The canonical form of a canonical form is itself.
canonical-canonical :
    (value digits : Text)
    → canonical_phone_digits value ≡ some digits
    → canonical_phone_digits digits ≡ some digits
canonical-canonical value digits e =
    let h : IsNumberOf digits (written value) = (canonical_phone_digits_lem value digits).0 e in
    (canonical_phone_digits_lem digits digits).1
      (record { ten = h.ten; numeric = h.numeric; form = inl (written-digits digits h.numeric) })

canonical-non_empty :
    (value digits : Text) → canonical_phone_digits value ≡ some digits → non_empty digits ≡ true
canonical-non_empty value [] e =
    absurd (ground (arith, ((canonical_phone_digits_lem value []).0 e).ten))
canonical-non_empty value (c ∷ digits) e = refl

module _ (u : Unicode) where
  -- A number has the key of its canonical form, however it is written.
  key-number :
      (value digits salt : Text)
      → canonical_phone_digits value ≡ some digits
      → identity_key u value salt
        ≡ (if non_empty (strip salt) then key (u.digest (salt ++ (0 ∷ digits))) else blank_salt)
  unfolding identity_key
  key-number value digits salt e = ground (arith, e, canonical-non_empty value digits e)

  -- Where the mobile number has a canonical form, `mobile_identity_key` is the key that
  -- `identity_key` gives the number as it is written, whatever the name and the block.
  pub mobile_identity_key-identity_key :
      (mobile name block : Option Text) (salt digits : Text)
      → canonical_phone_digits (or_blank mobile) ≡ some digits
      → mobile_identity_key u mobile name salt block ≡ identity_key u (or_blank mobile) salt
  unfolding mobile_identity_key
  mobile_identity_key-identity_key mobile name block salt digits e =
      rw (e, mobile_identity_key)
        (key-number digits digits salt (canonical-canonical (or_blank mobile) digits e)
          ∙ sym (key-number (or_blank mobile) digits salt e))

non_empty-snoc : (text : Text) (c : ℕ) → non_empty (text ++ (c ∷ [])) ≡ true
non_empty-snoc [] c = refl
non_empty-snoc (d ∷ text) c = refl

non_empty-reverse : (text : Text) → non_empty text ≡ true → non_empty (reverse text) ≡ true
non_empty-reverse [] h = h
non_empty-reverse (c ∷ text) h =
    subst (λ t. non_empty t ≡ true) (sym (reverse-cons c text)) (non_empty-snoc (reverse text) c)

lstrip-snoc :
    (text : Text) (c : ℕ) → is_space c ≡ false → non_empty (lstrip (text ++ (c ∷ []))) ≡ true
unfolding lstrip
lstrip-snoc [] c h = ground arith
lstrip-snoc (d ∷ text) c h = ground (arith, lstrip-snoc text c h)

-- A text that starts with no whitespace is not stripped to nothing.
strip-non_empty : (c : ℕ) (text : Text) → is_space c ≡ false → non_empty (strip (c ∷ text)) ≡ true
unfolding strip lstrip
strip-non_empty c text h =
    rw (h, lstrip)
      (non_empty-reverse (lstrip (reverse (c ∷ text))) (
        subst (λ t. non_empty (lstrip t) ≡ true) (sym (reverse-cons c text))
          (lstrip-snoc (reverse text) c h)))

module _ (u : Unicode)
    (lower-non_empty : (text : Text)
      → non_empty text ≡ true
      → non_empty (u.lower text) ≡ true) where
  -- What starts with no whitespace has a key.
  key-text :
      (c : ℕ) (text salt : Text) → is_space c ≡ false → identity_key u (c ∷ text) salt ≢ abstained
  unfolding identity_key
  key-text c text salt h e = elim (Option-cases (canonical_phone_digits (c ∷ text))) [
    | inl plain ↦
        absurd
          (ground (arith, e, plain, lower-non_empty (strip (c ∷ text)) (strip-non_empty c text h)))
    | inr (digits, found) ↦
        absurd (ground (arith, e, found, canonical-non_empty (c ∷ text) digits found))
  ]

  composite-key :
      (tail token : Text) (block : Option Text) (salt : Text)
      → identity_key u (fragments u tail token block) salt ≢ abstained
  unfolding is_space
  composite-key tail token none salt = key-text b'm' _ salt refl
  composite-key tail token (some block) salt = key-text b'm' _ salt refl

  number-key :
      (value digits salt : Text)
      → canonical_phone_digits value ≡ some digits
      → identity_key u digits salt ≢ abstained
  number-key value digits salt found e =
      absurd (
        ground (arith, e, key-number u digits digits salt (canonical-canonical value digits found)))

  -- A record abstains where its number is no phone number and a fragment is missing.
  abbrev pub IsAbstention : Option Text → Option Text → Type 0
  IsAbstention mobile name =
      (canonical_phone_digits (or_blank mobile) ≡ none)
      × ((tail_digits u mobile masked_mobile_tail ≡ none) ⊎ (name_token u name ≡ none))

  -- If lowercasing leaves no text empty that is not, then `mobile_identity_key` abstains exactly
  -- when the number has no canonical form and either it has too few digits for a tail or the name
  -- has too few letters.
  pub mobile_identity_key-IsAbstention :
      (mobile name block : Option Text) (salt : Text)
      → (mobile_identity_key u mobile name salt block ≡ abstained) ↔ IsAbstention mobile name
  unfolding mobile_identity_key
  mobile_identity_key-IsAbstention mobile name block salt =
      elim (Option-cases (canonical_phone_digits (or_blank mobile))) [
        | inl plain ↦ elim (Option-cases (tail_digits u mobile masked_mobile_tail)) [
          | inl short ↦ ground (arith, plain, short)
          | inr (tail, t) ↦ elim (Option-cases (name_token u name)) [
            | inl short ↦ ground (arith, plain, t, short)
            | inr (token, n) ↦
                ground (arith, plain, t, n, composite-key tail token (block_token u block) salt)
          ]
        ]
        | inr (digits, found) ↦
            ground (arith, found, number-key (or_blank mobile) digits salt found)
      ]
