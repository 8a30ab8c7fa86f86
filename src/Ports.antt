-- ===== src/Ports.antt =====
-- app/application/shared/interfaces.py: what the use cases ask of the outside. A port that the
-- source only declares, or that calls code outside the repository, is a function of the number of
-- the call: the n-th answer of the clock, of `uuid4`, of the salted hash.
use fastapi_starter.Prelude.{ℕ, ◌+◌, String, Option, List, Bool}
use fastapi_starter.Domain.Errors.{Result, ok}
use fastapi_starter.Domain.Users.{Uuid, Instant, DomainEvent}
use fastapi_starter.Exec.{Exec, modify}

pub data TokenType : Type 0 where
  access refresh : TokenType

pub record TokenPayload : Type 0 where
  pub subject : String
  pub token_type : TokenType
  pub token_id : Uuid

pub record IssuedToken : Type 0 where
  pub token : String
  pub expires_at : Instant

-- The port `TokenService`; the first argument is the number of the call.
pub record TokenService : Type 0 where
  pub create_access_token : ℕ → String → String
  pub create_refresh_token : ℕ → String → Uuid → IssuedToken
  pub decode : ℕ → String → Result TokenPayload

-- What the runtime and the outside answer: `uuid4()`, `clock.now()`, the password hasher, the text
-- form of a UUID and its parser (`none` for ValueError), `str.lower` and `repr`.
pub record Env : Type 0 where
  pub uuid4 : ℕ → Uuid
  pub now : ℕ → Instant
  pub hash : ℕ → String → String
  pub verify : String → String → Bool
  pub uuid_str : Uuid → String
  pub uuid_parse : String → Option Uuid
  pub lower : String → String
  pub repr : String → String
  pub tokens : TokenService

-- The state that a request's code changes: the database session, how many calls the outside has
-- answered, how many runs of the password hash were made, and the registrations that the subscriber
-- of UserRegistered has logged.
pub record World (S : Type 0) : Type 0 where
  pub session : S
  pub calls : ℕ
  pub hash_runs : ℕ
  pub dispatched : List DomainEvent

module _ {S A : Type 0} where
  -- One call of the outside.
  unfoldable pub ask : (ℕ → A) → Exec (World S) A
  ask f w = (ok (f w.calls), record w { calls = w.calls + 1 })

  -- One call that may raise.
  unfoldable pub ask_result : (ℕ → Result A) → Exec (World S) A
  ask_result f w = (f w.calls, record w { calls = w.calls + 1 })

  -- One run of the password hash.
  unfoldable pub ask_hasher : (ℕ → A) → Exec (World S) A
  ask_hasher f w = (ok (f w.calls), record w { calls = w.calls + 1; hash_runs = w.hash_runs + 1 })

-- A change of the session alone.
abbrev pub on_session : {S : Type 0} → (S → S) → Exec (World S) (Unit {0})
on_session f = modify (λ w. record w { session = f w.session })
