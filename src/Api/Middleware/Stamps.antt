-- ===== src/Api/Middleware/Stamps.antt =====
-- What the middleware leaves on a response.
use fastapi_starter.Prelude.{
  ℕ, String, ◌≡◌, ◌∙◌, refl, ap, Bool, true, false, Option, none, some, List, [], ◌∷◌, ◌++◌, any,
  if◌then◌else◌, str_eq, str_eq_iff, Bool-cases, inl, inr,
}
use fastapi_starter.Api.Middleware.{
  HeaderList, Message, response_start, response_body, has_name, set_default, send_with_headers,
}

-- The first value of a header.
abbrev pub value : String → HeaderList → Option String
value key [] = none
value key ((k, v) ∷ rest) = if str_eq k key then some v else value key rest

-- The value that the application chose, or the default.
abbrev pub own_or : Option String → String → Option String
own_or none default = some default
own_or (some v) default = some v

value-append_other :
    (key k' v' : String) (headers : HeaderList)
    → str_eq k' key ≡ false
    → value key (headers ++ (k', v') ∷ []) ≡ value key headers
value-append_other key k' v' [] h = rw h
value-append_other key k' v' ((k, v) ∷ rest) h =
    let rest' = value-append_other key k' v' rest h in rw rest'

value-set_default_other :
    (key k' v' : String) (headers : HeaderList)
    → str_eq k' key ≡ false
    → value key (set_default k' v' headers) ≡ value key headers
value-set_default_other key k' v' headers apart = elim (Bool-cases (any (has_name k') headers)) [
  | inl there ↦ rw there
  | inr missing ↦ rw missing (value-append_other key k' v' headers apart)
]

value-append :
    (key v' : String) (headers : HeaderList)
    → any (has_name key) headers ≡ false
    → value key (headers ++ (key, v') ∷ []) ≡ own_or (value key headers) v'
value-append key v' [] h = rw ((str_eq_iff key key).1 refl)
value-append key v' ((k, v) ∷ rest) h = elim (Bool-cases (str_eq k key)) [
  | inl same ↦ rw same
  | inr apart ↦ rw apart (value-append key v' rest (rw apart at h))
]

value-present :
    (key v' : String) (headers : HeaderList)
    → any (has_name key) headers ≡ true
    → value key headers ≡ own_or (value key headers) v'
value-present key v' [] h = cc
value-present key v' ((k, v) ∷ rest) h = elim (Bool-cases (str_eq k key)) [
  | inl same ↦ rw same
  | inr apart ↦ rw apart (value-present key v' rest (rw apart at h))
]

-- `setdefault` keeps what is there.
value-set_default :
    (key v' : String) (headers : HeaderList)
    → value key (set_default key v' headers) ≡ own_or (value key headers) v'
value-set_default key v' headers = elim (Bool-cases (any (has_name key) headers)) [
  | inl there ↦ rw there (value-present key v' headers there)
  | inr missing ↦ rw missing (value-append key v' headers missing)
]

-- The headers of a message.
abbrev pub headers_of : Message → HeaderList
headers_of (response_start status headers) = headers
headers_of (response_body body) = []

-- The value of a header under the four baseline defaults.
abbrev stamps : List (String × String)
stamps =
    ("x-content-type-options", "nosniff")
    ∷ ("x-frame-options", "DENY")
    ∷ ("referrer-policy", "no-referrer")
    ∷ ("permissions-policy", "geolocation=(), camera=(), microphone=()")
    ∷ []

abbrev stamped : List (String × String) → HeaderList → HeaderList
stamped [] headers = headers
stamped ((k, v) ∷ rest) headers = stamped rest (set_default k v headers)

abbrev default_of : String → List (String × String) → Option String → Option String
default_of key [] found = found
default_of key ((k, v) ∷ rest) found =
    default_of key rest (if str_eq k key then own_or found v else found)

value-stamped :
    (key : String) (pairs : List (String × String)) (headers : HeaderList)
    → value key (stamped pairs headers) ≡ default_of key pairs (value key headers)
value-stamped key [] headers = refl
value-stamped key ((k, v) ∷ rest) headers =
    value-stamped key rest (set_default k v headers)
    ∙ ap (default_of key rest) (one_stamp key k v headers)
  where
    one_stamp :
        (key k v : String) (headers : HeaderList)
        → value key (set_default k v headers)
          ≡ (if str_eq k key then own_or (value key headers) v else value key headers)
    one_stamp key k v headers = elim (Bool-cases (str_eq k key)) [
      | inl same ↦
          let equal : k ≡ key = (str_eq_iff k key).0 same in
          rw (same, equal) (value-set_default key v headers)
      | inr apart ↦ rw apart (value-set_default_other key k v headers apart)
    ]

abbrev transport : String × String
transport = ("strict-transport-security", "max-age=63072000; includeSubDomains")

-- The start of every response passes with its status and with the four baseline headers, each with
-- the application's own value where it set one; the transport header is added exactly with `hsts`.
pub send_with_headers_lem :
    (hsts : Bool) (status : ℕ) (headers : HeaderList)
    → (out : HeaderList) × (send_with_headers hsts (response_start status headers)
        ≡ response_start status out)
      × (value "x-content-type-options" out
          ≡ own_or (value "x-content-type-options" headers) "nosniff")
      × (value "x-frame-options" out ≡ own_or (value "x-frame-options" headers) "DENY")
      × (value "referrer-policy" out ≡ own_or (value "referrer-policy" headers) "no-referrer")
      × (value "permissions-policy" out
          ≡ own_or (value "permissions-policy" headers) "geolocation=(), camera=(), microphone=()")
      × (value "strict-transport-security" out ≡ (
          if hsts
          then own_or
              (value "strict-transport-security" headers)
              "max-age=63072000; includeSubDomains"
          else value "strict-transport-security" headers))
unfolding send_with_headers
send_with_headers_lem true status headers = (
  stamped (transport ∷ []) (stamped stamps headers),
  refl,
  both "x-content-type-options",
  both "x-frame-options",
  both "referrer-policy",
  both "permissions-policy",
  both "strict-transport-security",
)
  where
    both :
        (key : String)
        → value key (stamped (transport ∷ []) (stamped stamps headers))
          ≡ default_of key (transport ∷ []) (default_of key stamps (value key headers))
    both key =
        value-stamped key (transport ∷ []) (stamped stamps headers)
        ∙ ap (default_of key (transport ∷ [])) (value-stamped key stamps headers)
send_with_headers_lem false status headers = (
  stamped stamps headers,
  refl,
  value-stamped "x-content-type-options" stamps headers,
  value-stamped "x-frame-options" stamps headers,
  value-stamped "referrer-policy" stamps headers,
  value-stamped "permissions-policy" stamps headers,
  value-stamped "strict-transport-security" stamps headers,
)
