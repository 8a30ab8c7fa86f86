-- ===== src/Api/Layers/Transparent.antt =====
-- The run of an application behind the layers, compared with its run alone.
use fastapi_starter.Prelude.{ℕ, String, Option, none, some, List, [], ◌∷◌, ◌++◌, map}
use fastapi_starter.Domain.Errors.{Error, Result, ok}
use fastapi_starter.Config.{Settings, is_production}
use fastapi_starter.Api.Middleware.{
  Message, response_start, response_body, Incoming, resolve_request_id, send_with_request_id,
  send_with_headers,
}
use fastapi_starter.Api.Layers.{
  Scope, http_scope, Access, App, Event, sent, bound, logged, run, header, security_call, counted,
  size_call,
}

-- A change of the messages that are sent.
abbrev pub resent : (Message → Message) → Event → Event
resent f (sent m) = sent (f m)
resent f (bound id) = bound id
resent f (logged entry) = logged entry

abbrev pub identified : String → Message → Message
unfolding send_with_request_id
identified id m = (send_with_request_id id m 0).0

-- The status that an observer of the events names: that of the last start of a response.
abbrev pub status_after : ℕ → List Event → ℕ
status_after status [] = status
status_after status (sent (response_start s headers) ∷ events) = status_after s events
status_after status (sent (response_body body) ∷ events) = status_after status events
status_after status (bound id ∷ events) = status_after status events
status_after status (logged entry ∷ events) = status_after status events

-- The messages as the application receives them under the cap.
abbrev pub capped : ℕ → ℕ → List (Result Incoming) → List (Result Incoming)
capped max_bytes received [] = []
capped max_bytes received (message ∷ inputs) =
    (counted max_bytes received message).0
    ∷ capped max_bytes (counted max_bytes received message).1 inputs

-- The access event of a run.
abbrev pub access : String → Scope → ℕ → Access
access id scope status = record {
  method = scope.method;
  path = scope.path;
  status = status;
  request_id = id;
}

module _ (generated : String) (gzip_call : App → App)
    (trusted_call cors_call : List String → App → App) (settings : Settings) (app : App)
    (request : Scope) (messages : List Incoming) where
  abbrev pub scope : Scope
  scope = record request { kind = http_scope }

  abbrev pub id : String
  id = resolve_request_id generated (header "x-request-id" request.headers)

  -- The run of the application itself, which sees the request id.
  abbrev pub inner : List Event × Option Error
  inner = run (map ok messages) (app (record scope { request_id = some id }))

  -- What the layer of the request context makes of a run.
  abbrev pub stamped : List Event × Option Error → List Event × Option Error
  stamped (events, outcome) = (
    map (resent (identified id)) events
        ++ logged (access id scope (status_after 500 events)) ∷ bound none ∷ [],
    outcome,
  )

  -- What the layers of the security headers and of the body size make of a run.
  abbrev pub hardened : List Event × Option Error → List Event × Option Error
  hardened (events, outcome) =
      (map (resent (send_with_headers (is_production settings))) events, outcome)

  abbrev pub hardened_app : App
  hardened_app =
      security_call (is_production settings) (size_call settings.app.max_request_body_bytes app)

  abbrev pub seen : Scope
  seen = record scope { request_id = some id }

  -- What the gzip layer makes of the application with the two layers inside of it.
  abbrev pub compressed : List Event × Option Error
  compressed = run (map ok messages) (gzip_call hardened_app seen)
