-- ===== src/Api/Middleware.antt =====
-- app/api/middleware.py: the request id, the security headers and the cap on the body.
pub mod Limits
pub mod Stamps
use Prim.Native.Char.{code}
use fastapi_starter.Prelude.{
  ℕ, zero, ◌+◌, String, Bool, true, false, not, ◌||◌, ◌&&◌, Option, none, some, List, [], ◌∷◌, ◌++◌,
  any, ◌==◌, leb, ltb, if◌then◌else◌, str_eq,
}
use fastapi_starter.Text.Regex.{Class, Piece, one, up_to, end_of_text, matches}
use fastapi_starter.Domain.Errors.{Result, ok, err, http}
use fastapi_starter.Config.{Settings, is_production}

-- `[A-Za-z0-9._\-]`
unfoldable pub id_class : Class
id_class x =
    leb 65 x && leb x 90
    || leb 97 x && leb x 122
    || leb 48 x && leb x 57
    || x == 46
    || x == 95
    || x == 45

-- `[A-Za-z0-9._\-]{1,64}` for `fullmatch`
abbrev pub request_id_re : List Piece
request_id_re = one id_class ∷ up_to 63 id_class ∷ end_of_text ∷ []

-- `str(uuid.uuid4())` is given.
unfoldable pub resolve_request_id : String → Option String → String
resolve_request_id generated none = generated
resolve_request_id generated (some raw) = if matches request_id_re raw then raw else generated

abbrev pub HeaderList : Type 0
HeaderList = List (String × String)

-- An ASGI message of the application: the names of its headers are in lower case.
pub data Message : Type 0 where
  response_start : ℕ → HeaderList → Message
  response_body : String → Message

-- `MutableHeaders.setdefault`, with the name in lower case.
abbrev pub has_name : String → String × String → Bool
has_name key h = str_eq h.0 key

abbrev pub set_default : String → String → HeaderList → HeaderList
set_default key value headers =
    if any (has_name key) headers then headers else headers ++ (key, value) ∷ []

-- `send_with_request_id`: what is passed on, and the status that the access log will name.
unfoldable pub send_with_request_id : String → Message → ℕ → Message × ℕ
send_with_request_id id (response_start status headers) logged =
    (response_start status (set_default "x-request-id" id headers), status)
send_with_request_id id (response_body body) logged = (response_body body, logged)

abbrev pub baseline : HeaderList → HeaderList
baseline headers = set_default "permissions-policy" "geolocation=(), camera=(), microphone=()" (
    set_default "referrer-policy" "no-referrer" (
      set_default "x-frame-options" "DENY"
        (set_default "x-content-type-options" "nosniff" headers)))

-- `send_with_headers`
unfoldable pub send_with_headers : Bool → Message → Message
send_with_headers hsts (response_start status headers) = response_start status (
    if hsts
    then set_default "strict-transport-security" "max-age=63072000; includeSubDomains"
        (baseline headers)
    else baseline headers)
send_with_headers hsts (response_body body) = response_body body

-- What an application receives: a part of the body, by its length, or another message.
pub data Incoming : Type 0 where
  http_request : ℕ → Incoming
  disconnect : Incoming

-- `limited_receive`: the message or the exception, and the new count of bytes.
unfoldable pub limited_receive : ℕ → Incoming → ℕ → Result Incoming × ℕ
limited_receive max_bytes (http_request size) received = (
  if ltb max_bytes (received + size)
      then err (http 413 "Request body too large." [])
      else ok (http_request size),
  received + size,
)
limited_receive max_bytes disconnect received = (ok disconnect, received)

-- A handler that reads all parts of the body.
abbrev pub resumed : Result Incoming × ℕ → (ℕ → Result (Unit {0})) → Result (Unit {0})
resumed (ok message, received) next = next received
resumed (err e, received) next = err e

unfoldable pub read_body : ℕ → List Incoming → ℕ → Result (Unit {0})
unfolding limited_receive
read_body max_bytes [] received = ok tt
read_body max_bytes (message ∷ messages) received =
    resumed (limited_receive max_bytes message received) (read_body max_bytes messages)

-- What `setup_middleware` adds; each one wraps those before it.
pub data Layer : Type 0 where
  body_size_limit : ℕ → Layer
  security_headers : Bool → Layer
  gzip : Layer
  trusted_host : List String → Layer
  request_context : Layer
  cors : List String → Layer

abbrev pub is_empty {ℓ} : {A : Type ℓ} → List A → Bool
is_empty [] = true
is_empty (x ∷ xs) = false

-- The layers from the outermost to the innermost.
unfoldable pub setup_middleware : Settings → List Layer
setup_middleware settings =
    let inner =
      request_context
      ∷ trusted_host settings.app.allowed_hosts
      ∷ gzip
      ∷ security_headers (is_production settings)
      ∷ body_size_limit settings.app.max_request_body_bytes
      ∷ [] in
    if is_empty settings.app.cors_origins then inner else cors settings.app.cors_origins ∷ inner
