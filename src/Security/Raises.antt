-- ===== src/Security/Raises.antt =====
-- The token service over PyJWT raises what the use cases expect of a token service.
use fastapi_starter.Prelude.{ℕ, String, ◌≡◌, refl, Option, inl, inr}
use fastapi_starter.Domain.Errors.{Result, ok, err, message}
use fastapi_starter.Domain.Users.{Uuid, Instant}
use fastapi_starter.Exec.{Errs}
use fastapi_starter.Ports.{Env, TokenPayload}
use fastapi_starter.Database.Faults.{OfSessions, DecodeRaises}
use fastapi_starter.Security.{PyJwt, JwtSettings, decode, jwt_token_service}
use fastapi_starter.Security.Tokens.{decode_errors}

module _ (jwt : PyJwt) (settings : JwtSettings) (uuid_str : Uuid → String)
    (uuid_parse : String → Option Uuid) (uuid4 : ℕ → Uuid) (now : ℕ → Instant) where
  pub jwt-DecodeRaises :
      (env : Env)
      → DecodeRaises
          (record env { tokens = jwt_token_service jwt settings uuid_str uuid_parse uuid4 now })
  unfolding jwt_token_service message
  jwt-DecodeRaises env n token = go (decode jwt settings uuid_str uuid_parse uuid4 now n token) refl
    where
      go :
          (r : Result TokenPayload)
          → decode jwt settings uuid_str uuid_parse uuid4 now n token ≡ r
          → Errs OfSessions r
      go (ok payload) h = tt
      go (err e) h = elim (decode_errors jwt settings uuid_str uuid_parse uuid4 now n token e h) [
        | inl invalid ↦ rw invalid tt
        | inr expired ↦ rw expired.0 tt
      ]
