-- ===== src/Dedup/Identity.antt =====
-- The keys of one citizen in janasunani/pipeline/dedup.py: a phone number in its canonical form, and
-- the salted key of a number, of the fragments of a masked one, and of an e-mail address.
pub mod Phone
pub mod Keys
pub mod Tests
use janasunani.Base.{
  ℕ, ◌+◌, ◌-◌, Bool, true, false, not, ◌&&◌, ◌||◌, Option, none, some, List, [], ◌∷◌, ◌++◌, map,
  Text, codes, leb, ltb, ◌==◌, if◌then◌else◌, text_eq, length, take, drop, filterb, strip, is_space,
}
use janasunani.Serving.Signals.{non_empty}

-- `_INDIC_DIGITS_TO_ASCII`
abbrev pub to_ascii : ℕ → ℕ
to_ascii c =
    if leb 2406 c && leb c 2415
    then c - 2406 + 48
    else if leb 2918 c && leb c 2927
    then c - 2918 + 48
    else c

-- What `[\s\-()]` matches.
abbrev pub is_separator : ℕ → Bool
is_separator c = is_space c || (c == b'-' || (c == b'(' || c == b')'))

-- `re.sub(r"[\s\-()]", "", text)`
unfoldable pub condense : Text → Text
condense text = filterb (λ c. not (is_separator c)) text

abbrev pub is_ascii_digit : ℕ → Bool
is_ascii_digit c = leb b'0' c && leb c b'9'

unfoldable pub all_digits : Text → Bool
all_digits [] = true
all_digits (c ∷ text) = is_ascii_digit c && all_digits text

-- `\+?`
abbrev pub without_plus : Text → Text
without_plus [] = []
without_plus (c ∷ text) = if c == b'+' then text else c ∷ text

-- `re.fullmatch(r"\+?[0-9]{10,13}", text)`
unfoldable pub is_number : Text → Bool
unfolding all_digits
is_number text =
    let digits = without_plus text in
    all_digits digits && (leb 10 (length digits) && leb (length digits) 13)

-- `text.lstrip("+")`
unfoldable pub lstrip_plus : Text → Text
lstrip_plus [] = []
lstrip_plus (c ∷ text) = elim (c == b'+') [ true ↦ lstrip_plus text | false ↦ c ∷ text ]

-- The country code or the trunk prefix, and the length at the end.
unfoldable pub subscriber : Text → Option Text
subscriber digits =
    let number =
      if length digits == 12 && text_eq (take 2 digits) (codes "91")
      then drop 2 digits
      else if length digits == 11 && text_eq (take 1 digits) (codes "0")
      then drop 1 digits
      else digits in
    if length number == 10 then some number else none

unfoldable pub canonical_phone_digits : Text → Option Text
unfolding condense is_number lstrip_plus subscriber
canonical_phone_digits value =
    let condensed = condense (map to_ascii (strip value)) in
    if not (is_number condensed) then none else subscriber (lstrip_plus condensed)

-- A salt of whitespace raises `ValueError`; a value that reduces to nothing gives no key.
pub data IdentityKey : Type 0 where
  blank_salt : IdentityKey
  abstained : IdentityKey
  key : Text → IdentityKey

-- `str.lower`, `str.isdigit`, `str.isalpha`, `str.isalnum` and the hex digest of BLAKE2b.
pub record Unicode : Type 0 where
  pub lower : Text → Text
  pub is_digit : ℕ → Bool
  pub is_alpha : ℕ → Bool
  pub is_alnum : ℕ → Bool
  pub digest : Text → Text

abbrev pub name_min : ℕ
name_min = 4

abbrev pub masked_mobile_tail : ℕ
masked_mobile_tail = 4

-- `value or ""`
abbrev pub or_blank : Option Text → Text
or_blank none = []
or_blank (some value) = value

module _ (u : Unicode) where
  abbrev pub normalized : Text → Text
  normalized value = elim (canonical_phone_digits value) [
    | some digits ↦ digits
    | none ↦ u.lower (strip value)
  ]

  unfoldable pub identity_key : Text → Text → IdentityKey
  identity_key value salt =
      if not (non_empty (strip salt))
      then blank_salt
      else if not (non_empty (normalized value))
      then abstained
      else key (u.digest (salt ++ (0 ∷ normalized value)))

  -- `"".join(ch.lower() for ch in text if ...)`
  unfoldable pub lowered : (ℕ → Bool) → Text → Text
  lowered p [] = []
  lowered p (c ∷ text) = let rest = lowered p text in if p c then u.lower (c ∷ []) ++ rest else rest

  -- `_tail_digits`
  unfoldable pub tail_digits : Option Text → ℕ → Option Text
  tail_digits value n =
      let digits = filterb u.is_digit (or_blank value) in
      if leb n (length digits) then some (drop (length digits - n) digits) else none

  -- `_name_token`
  unfoldable pub name_token : Option Text → Option Text
  unfolding lowered
  name_token value =
      let alpha = lowered u.is_alpha (or_blank value) in
      if leb name_min (length alpha) then some alpha else none

  -- `_block_token`
  unfoldable pub block_token : Option Text → Option Text
  unfolding lowered
  block_token value =
      let token = lowered u.is_alnum (or_blank value) in
      if non_empty token then some token else none

  -- The text of the fragments of a masked number.
  abbrev pub fragments : Text → Text → Option Text → Text
  fragments tail name none = codes "mobile4:" ++ (tail ++ (codes ":" ++ name))
  fragments tail name (some block) =
      codes "mobile4b:" ++ (tail ++ (codes ":" ++ (name ++ (codes ":" ++ block))))

  unfoldable pub mobile_identity_key : Option Text → Option Text → Text → Option Text → IdentityKey
  unfolding identity_key tail_digits name_token block_token
  mobile_identity_key mobile name salt block = elim (canonical_phone_digits (or_blank mobile)) [
    | some canonical ↦ identity_key canonical salt
    | none ↦ elim (tail_digits mobile masked_mobile_tail) [
      | none ↦ abstained
      | some tail ↦ elim (name_token name) [
        | none ↦ abstained
        | some token ↦ identity_key (fragments tail token (block_token block)) salt
      ]
    ]
  ]

  -- `value.partition("@")`: the part before, and the part after if there is one.
  abbrev pub before_at : Text → Text
  before_at [] = []
  before_at (c ∷ text) = let rest = before_at text in if c == b'@' then [] else c ∷ rest

  abbrev pub after_at : Text → Text
  after_at [] = []
  after_at (c ∷ text) = let rest = after_at text in if c == b'@' then text else rest

  abbrev pub has_dot : Text → Bool
  has_dot [] = false
  has_dot (c ∷ text) = c == b'.' || has_dot text

  unfoldable pub email_identity_key : Option Text → Option Text → Text → IdentityKey
  unfolding identity_key name_token
  email_identity_key email name salt =
      let value = u.lower (strip (or_blank email)) in
      if not (non_empty (before_at value)) || not (has_dot (after_at value))
      then abstained
      else elim (name_token name) [
        | none ↦ abstained
        | some token ↦ identity_key (codes "email:" ++ (value ++ (codes ":" ++ token))) salt
      ]
