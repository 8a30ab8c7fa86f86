-- ===== src/Tests/Layers.antt =====
-- A request through the whole stack of middleware.
use fastapi_starter.Prelude.{String, Option, none, some, List, [], ◌∷◌}
use fastapi_starter.Api.Middleware.{Message, response_start, response_body, Incoming, http_request}
use fastapi_starter.Api.Layers.{
  App, Act, Scope, http_scope, send, receive, bind, log, stop, with_middleware,
}
use fastapi_starter.Tests.Interface.{production_settings}

-- It reads one message and answers.
abbrev app : App
app s = receive (λ message. send (response_start 200 []) (send (response_body "done") (stop none)))

abbrev request : Scope
request = record {
  kind = http_scope;
  method = "POST";
  path = "/api/v1/auth/login";
  headers = ("x-request-id", "id-1") ∷ [];
  request_id = none;
}

abbrev messages : List Incoming
messages = http_request 60 ∷ http_request 40 ∷ []

-- A layer that holds the start of a response back until the first part of its body.
abbrev holding : Option Message → Act → Act
holding held (send (response_start status headers) act) =
    holding (some (response_start status headers)) act
holding none (send (response_body body) act) = send (response_body body) (holding none act)
holding (some start) (send (response_body body) act) =
    send start (send (response_body body) (holding none act))
holding held (receive k) = receive (λ message. holding held (k message))
holding held (bind id act) = bind id (holding held act)
holding held (log entry act) = log entry (holding held act)
holding held (stop outcome) = stop outcome

abbrev hold : App → App
hold a s = holding none (a s)

-- The other layers of the library, where none of them acts.
abbrev pass_on_for : List String → App → App
pass_on_for names a = a

abbrev sent_whole : App
sent_whole = with_middleware "generated" hold pass_on_for pass_on_for production_settings app
