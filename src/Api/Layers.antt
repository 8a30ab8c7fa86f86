-- ===== src/Api/Layers.antt =====
-- The three middleware classes of app/api/middleware.py as ASGI applications around another one, and
-- the stack that `setup_middleware` builds.
pub mod Transparent
use fastapi_starter.Prelude.{
  ℕ, ◌+◌, String, Bool, Option, none, some, List, [], ◌∷◌, ◌++◌, str_eq, if◌then◌else◌,
}
use fastapi_starter.Domain.Errors.{Error, Result, ok, err}
use fastapi_starter.Config.{Settings}
use fastapi_starter.Api.Middleware.{
  HeaderList, Message, response_start, response_body, Incoming, disconnect, resolve_request_id,
  send_with_request_id, send_with_headers, limited_receive, Layer, body_size_limit,
  security_headers, gzip, trusted_host, request_context, cors, setup_middleware,
}

-- `scope["type"]`
pub data ScopeKind : Type 0 where
  http_scope websocket_scope lifespan_scope : ScopeKind

-- What the middleware reads of a scope, and `scope["state"]["request_id"]`, which it writes.
pub record Scope : Type 0 where
  pub kind : ScopeKind
  pub method : String
  pub path : String
  pub headers : HeaderList
  pub request_id : Option String

-- The access event, without its duration.
pub record Access : Type 0 where
  pub method : String
  pub path : String
  pub status : ℕ
  pub request_id : String

-- What an application does, up to its return or the exception that leaves it: it sends, awaits a
-- message or the exception of `receive`, binds or clears the context of the log, and logs.
pub data Act : Type 0 where
  send : Message → Act → Act
  receive : (Result Incoming → Act) → Act
  bind : Option String → Act → Act
  log : Access → Act → Act
  stop : Option Error → Act

abbrev pub App : Type 0
App = Scope → Act

pub data Event : Type 0 where
  sent : Message → Event
  bound : Option String → Event
  logged : Access → Event

abbrev pub first_event : Event → List Event × Option Error → List Event × Option Error
first_event e (events, outcome) = (e ∷ events, outcome)

-- A run on the messages that the server holds; after them it reports the end of the connection.
unfoldable pub run : List (Result Incoming) → Act → List Event × Option Error
run inputs (send m act) = first_event (sent m) (run inputs act)
run [] (receive k) = run [] (k (ok disconnect))
run (message ∷ inputs) (receive k) = run inputs (k message)
run inputs (bind id act) = first_event (bound id) (run inputs act)
run inputs (log entry act) = first_event (logged entry) (run inputs act)
run inputs (stop outcome) = ([], outcome)

-- `Headers(scope).get(name)`
abbrev pub header : String → HeaderList → Option String
header name [] = none
header name ((k, v) ∷ rest) = if str_eq k name then some v else header name rest

-- The part of `RequestContextMiddleware.__call__` around the application: the status starts at 500.
unfoldable pub observed : String → Scope → ℕ → Act → Act
unfolding send_with_request_id
observed id scope status (send m act) =
    let (m', status') = send_with_request_id id m status in send m' (observed id scope status' act)
observed id scope status (receive k) = receive (λ message. observed id scope status (k message))
observed id scope status (bind b act) = bind b (observed id scope status act)
observed id scope status (log entry act) = log entry (observed id scope status act)
observed id scope status (stop outcome) =
    log (record { method = scope.method; path = scope.path; status = status; request_id = id })
      (bind none (stop outcome))

unfoldable pub context_call : String → App → App
unfolding observed
context_call generated app scope = elim scope.kind [
  | http_scope ↦
      let id = resolve_request_id generated (header "x-request-id" scope.headers) in
      let scope' = record scope { request_id = some id } in
      bind (some id) (observed id scope' 500 (app scope'))
  | websocket_scope ↦ app scope
  | lifespan_scope ↦ app scope
]

unfoldable pub secured : (Message → Message) → Act → Act
secured stamp (send m act) = send (stamp m) (secured stamp act)
secured stamp (receive k) = receive (λ message. secured stamp (k message))
secured stamp (bind b act) = bind b (secured stamp act)
secured stamp (log entry act) = log entry (secured stamp act)
secured stamp (stop outcome) = stop outcome

unfoldable pub security_call : Bool → App → App
security_call hsts app scope = elim scope.kind [
  | http_scope ↦ secured (send_with_headers hsts) (app scope)
  | websocket_scope ↦ app scope
  | lifespan_scope ↦ app scope
]

-- `limited_receive` on a message of the server, or on the exception of its `receive`.
unfoldable pub counted : ℕ → ℕ → Result Incoming → Result Incoming × ℕ
counted max_bytes received (ok message) = limited_receive max_bytes message received
counted max_bytes received (err e) = (err e, received)

unfoldable pub limited : ℕ → ℕ → Act → Act
limited max_bytes received (send m act) = send m (limited max_bytes received act)
limited max_bytes received (receive k) = receive (λ message.
    limited max_bytes (counted max_bytes received message).1
      (k (counted max_bytes received message).0))
limited max_bytes received (bind b act) = bind b (limited max_bytes received act)
limited max_bytes received (log entry act) = log entry (limited max_bytes received act)
limited max_bytes received (stop outcome) = stop outcome

unfoldable pub size_call : ℕ → App → App
size_call max_bytes app scope = elim scope.kind [
  | http_scope ↦ limited max_bytes 0 (app scope)
  | websocket_scope ↦ app scope
  | lifespan_scope ↦ app scope
]

-- The library's own middleware is given.
module _ (generated : String) (gzip_call : App → App)
    (trusted_call cors_call : List String → App → App) where
  unfoldable pub install : Layer → App → App
  unfolding context_call security_call size_call
  install (body_size_limit max_bytes) = size_call max_bytes
  install (security_headers hsts) = security_call hsts
  install gzip = gzip_call
  install (trusted_host hosts) = trusted_call hosts
  install request_context = context_call generated
  install (cors origins) = cors_call origins

  unfoldable pub installed : List Layer → App → App
  unfolding install
  installed [] app = app
  installed (layer ∷ inner) app = install layer (installed inner app)

  -- The application behind all layers.
  unfoldable pub with_middleware : Settings → App → App
  unfolding installed setup_middleware
  with_middleware settings app = installed (setup_middleware settings) app
