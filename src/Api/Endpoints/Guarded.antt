-- ===== src/Api/Endpoints/Guarded.antt =====
-- The endpoints behind `CurrentUser`.
use fastapi_starter.Prelude.{ℕ, ◌+◌, String, ◌≡◌, refl, Bool, Option}
use fastapi_starter.Domain.Errors.{Error, err}
use fastapi_starter.Domain.Users.{Uuid}
use fastapi_starter.Ports.{Env}
use fastapi_starter.Database.Session.{Session}
use fastapi_starter.Auth.CurrentUser.{get_current_user}
use fastapi_starter.Auth.CurrentUser.Guard.{get_current_user_keeps}
use fastapi_starter.Queries.{Cursors}
use fastapi_starter.RateLimit.{Redis, RateLimitSettings}
use fastapi_starter.Api.Endpoints.{
  raised, Server, ChangePasswordRequest, change_password, read_me, get_user, list_users,
}

module _ {S R : Type 0} (db : Session S) (env : Env) (redis : Redis R) (show : ℕ → String)
    (settings : RateLimitSettings) (email_str : String → Bool) (codec : Cursors)
    (credentials : String) (server : Server S R) where
  -- The token service has been asked, and nothing else has changed.
  abbrev pub asked : Server S R
  asked = record server { world = record server.world { calls = server.world.calls + 1 } }

  -- A caller whom the dependency refuses gets the same exception from the four endpoints behind it,
  -- whatever is asked of them, and neither the database nor the cache nor the hash is touched.
  pub guarded_endpoints_refuse :
      (body : ChangePasswordRequest) (id : Uuid) (limit : ℕ) (cursor : Option String) (e : Error)
      → (get_current_user db env credentials server.world).0 ≡ err e
      → (change_password db env redis show settings email_str codec credentials body server
          ≡ (raised e, asked))
        × (read_me db env redis show settings email_str codec credentials server
            ≡ (raised e, asked))
        × (get_user db env redis show settings email_str codec credentials id server
            ≡ (raised e, asked))
        × (list_users db env redis show settings email_str codec credentials limit cursor server
            ≡ (raised e, asked))
  unfolding change_password read_me get_user list_users get_current_user
  guarded_endpoints_refuse body id limit cursor e refused =
      let kept = get_current_user_keeps db env credentials server.world in
      (
        rw (refused, kept) refl,
        rw (refused, kept) refl,
        rw (refused, kept) refl,
        rw (refused, kept) refl,
      )
