-- ===== src/Dedup/Identity/Tests.antt =====
-- Identity keys at concrete records.
use janasunani.Base.{◌≡◌, ◌↔◌, refl, none, some, Text, codes, text_eq, leb, is_space, lstrip, strip}
use janasunani.Dedup.Identity.{
  Unicode, abstained, canonical_phone_digits, condense, all_digits, is_number, lstrip_plus,
  subscriber, identity_key, mobile_identity_key, is_ascii_digit,
}
use janasunani.Dedup.Identity.Phone.{IsNumberOf, written, canonical_phone_digits_lem}
use janasunani.Dedup.Identity.Keys.{
  IsAbstention, mobile_identity_key-identity_key, mobile_identity_key-IsAbstention,
}

-- Texts of ASCII letters, with a digest that is the text itself.
abbrev ascii : Unicode
ascii = record {
  lower = λ text. text;
  is_digit = is_ascii_digit;
  is_alpha = λ c. leb b'a' c;
  is_alnum = λ c. leb b'0' c;
  digest = λ text. text;
}

abbrev mobile : Text
mobile = codes "+91 98612-34567"

canonical_phone_digits_lem_example :
    (canonical_phone_digits mobile ≡ some (codes "9861234567"))
    ↔ IsNumberOf (codes "9861234567") (written mobile)
canonical_phone_digits_lem_example = canonical_phone_digits_lem mobile (codes "9861234567")

mobile_identity_key-identity_key_example :
    mobile_identity_key ascii (some mobile) none (codes "salt") none
    ≡ identity_key ascii mobile (codes "salt")
unfolding canonical_phone_digits strip lstrip is_space condense is_number all_digits lstrip_plus
    subscriber text_eq
mobile_identity_key-identity_key_example =
    mobile_identity_key-identity_key ascii (some mobile) none none (codes "salt")
      (codes "9861234567") refl

mobile_identity_key-IsAbstention_example :
    (mobile_identity_key ascii (some (codes "~::~")) none (codes "salt") none ≡ abstained)
    ↔ IsAbstention ascii (λ text h. h) (some (codes "~::~")) none
mobile_identity_key-IsAbstention_example =
    mobile_identity_key-IsAbstention ascii (λ text h. h) (some (codes "~::~")) none none
      (codes "salt")
