-- ===== src/Egress/Http.antt =====
-- What the Sarvam client of janasunani/egress/sarvam.py sends and reads: JSON values as far as it
-- looks into them, the replies of a transport, and the readers of a reply.
use janasunani.Base.{
  ◌≡◌, refl, ◌⊎◌, inl, inr, ℕ, Bool, false, ◌&&◌, ◌||◌, Option, none, some, List, Text, codes, leb,
  ltb, if◌then◌else◌, filterb, text_eq, text_discrete, lookup, insert,
}
use janasunani.Serving.Signals.{non_empty}

-- A JSON value: `other` is a boolean, a number that is no natural one, an array or an object, with
-- its truth value, whether Python can hash it, and its canonical text.
pub data Json : Type 0 where
  null : Json
  str : Text → Json
  num : ℕ → Json
  other : Bool → Bool → Text → Json

abbrev pub Payload : Type 0
Payload = List (Text × Json)

-- `response.json()`: it raises an exception of the named class, gives no dict, or gives one.
pub data Body : Type 0 where
  raises : Text → Body
  no_object : Body
  object : Payload → Body

-- `float(headers.get("Retry-After"))` in milliseconds: no number, one that is not above zero, or one.
pub data RetryAfter : Type 0 where
  no_number : RetryAfter
  not_positive : RetryAfter
  milliseconds : ℕ → RetryAfter

pub record HttpResponse : Type 0 where
  pub status_code : ℕ
  pub body : Body
  pub retry_after : RetryAfter
  pub content : Text

-- The transport raises an exception, which is none of the client's own, or answers.
pub data Reply : Type 0 where
  raised : Text → Reply
  responded : HttpResponse → Reply

pub data Request : Type 0 where
  post : Text → List ℕ → Request
  get : Text → Request

-- A computation that ends with a value or with an error.
pub data Result (E A : Type 0) : Type 0 where
  ok : A → Result E A
  err : E → Result E A

pub Result-cases :
    {E A : Type 0} (r : Result E A) → ((e : E) × (r ≡ err e)) ⊎ ((a : A) × (r ≡ ok a))
Result-cases (err e) = inl (e, refl)
Result-cases (ok a) = inr (a, refl)

-- `payload.get(key)`
abbrev pub field : Text → Payload → Json
field key payload = elim (lookup text_discrete key payload) [ none ↦ null | some value ↦ value ]

-- `bool(value)`
abbrev pub truthy : Json → Bool
truthy null = false
truthy (str s) = non_empty s
truthy (num n) = ltb 0 n
truthy (other truth hashable text) = truth

-- `a or b`
abbrev pub or_else : Json → Json → Json
or_else a b = if truthy a then a else b

-- `value if isinstance(value, str) else None`
abbrev pub as_text : Json → Option Text
as_text (str s) = some s
as_text _ = none

abbrev pub is_success : ℕ → Bool
is_success status = leb 200 status && ltb status 300

-- `_json_response`, with the class of the exception as its error.
unfoldable pub json_response : HttpResponse → Result Text Payload
json_response r =
    if is_success r.status_code
    then elim r.body [
      | raises name ↦ err name
      | no_object ↦ err (codes "SarvamError")
      | object payload ↦ ok payload
    ]
    else err (codes "SarvamError")

abbrev pub is_safe_key : Text × Json → Bool
is_safe_key (key, value) =
    text_eq key (codes "job_id")
    || (text_eq key (codes "status")
        || (text_eq key (codes "usage")
            || (text_eq key (codes "model") || text_eq key (codes "request_id"))))

-- `_response_metadata`
unfoldable pub response_metadata : Payload → ℕ → Payload
response_metadata payload http_status =
    insert text_discrete (codes "http_status") (num http_status) (filterb is_safe_key payload)
