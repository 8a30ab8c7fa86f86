-- ===== src/Auth/Kinds.antt =====
-- The two kinds of tokens do not stand in for each other.
use fastapi_starter.Prelude.{◌+◌, String, ◌≡◌, refl}
use fastapi_starter.Domain.Errors.{ok, err, domain_of, invalid_token}
use fastapi_starter.Ports.{Env, World, TokenPayload, access, refresh}
use fastapi_starter.Database.Session.{Session}
use fastapi_starter.Auth.Refresh
use fastapi_starter.Auth.Logout
use fastapi_starter.Auth.CurrentUser.{get_current_user}

module _ {S : Type 0} (db : Session S) (env : Env) (w : World S) where
  abbrev after_decode : World S
  after_decode = record w { calls = w.calls + 1 }

  -- A valid access token is refused with InvalidTokenError by the refresh and by the logout, and a
  -- valid refresh token by the dependency of the current user; the session is not touched.
  pub kinds_are_apart :
      (for_access for_refresh : String) (a r : TokenPayload)
      → env.tokens.decode w.calls for_access ≡ ok a
      → a.token_type ≡ access
      → env.tokens.decode w.calls for_refresh ≡ ok r
      → r.token_type ≡ refresh
      → (Refresh.execute db env for_access w ≡ (err (domain_of invalid_token), after_decode))
        × (Logout.execute db env for_access w ≡ (err (domain_of invalid_token), after_decode))
        × (get_current_user db env for_refresh w ≡ (err (domain_of invalid_token), after_decode))
  unfolding Refresh.execute Logout.execute get_current_user
  kinds_are_apart for_access for_refresh a r decoded kind decoded' kind' =
      (rw (decoded, kind) refl, rw (decoded, kind) refl, rw (decoded', kind') refl)
