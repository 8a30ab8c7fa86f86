-- ===== src/Auth/Login/Success.antt =====
-- What an accepted login does to the token table.
use mathlib.Core.List.{append-nil}
use fastapi_starter.Prelude.{◌+◌, String, ◌≡◌, refl, true, none, some, [], ◌∷◌, ◌++◌}
use fastapi_starter.Domain.Errors.{ok}
use fastapi_starter.Domain.Email.{Email, email}
use fastapi_starter.Domain.Users.{User}
use fastapi_starter.Ports.{Env, World}
use fastapi_starter.Database.Models.{RefreshTokenModel, aware}
use fastapi_starter.Database.Session.{Session, IsSession, IsReady}
use fastapi_starter.Database.TokenMapper
use fastapi_starter.Database.UserRepository.{get_by_email, get_by_email_keeps}
use fastapi_starter.Auth.Login.{LoginCommand, TokenPair, execute, authenticate}

module _ {S : Type 0} (db : Session S) (env : Env) (w : World S) (command : LoginCommand)
    (address : Email) (user : User) where
  abbrev subject : String
  subject = env.uuid_str user.id.value

  -- The token of the login: its id, its expiry and its family are drawn after the check of the
  -- password.
  abbrev pub first_token : RefreshTokenModel
  first_token = record {
    jti = env.uuid4 (w.calls + 1);
    user_id = user.id.value;
    family_id = env.uuid4 (w.calls + 1 + 1 + 1);
    expires_at =
        aware
          (env.tokens.create_refresh_token (w.calls + 1 + 1) subject
            (env.uuid4 (w.calls + 1))).expires_at;
    revoked_at = none;
  }

  abbrev pub pair : TokenPair
  pair = record {
    access_token = env.tokens.create_access_token (w.calls + 1 + 1 + 1 + 1) subject;
    refresh_token =
        (env.tokens.create_refresh_token (w.calls + 1 + 1) subject (env.uuid4 (w.calls + 1))).token;
  }

  abbrev pub added : S
  added = db.add_token first_token w.session

  login_trace :
      user.is_active ≡ true
      → env.verify command.password user.hashed_password.value ≡ true
      → (db.commit added).0 ≡ none
      → authenticate db env command (some user) w ≡ (
        ok pair,
        record w {
          session = (db.commit added).1;
          calls = w.calls + 1 + 1 + 1 + 1 + 1;
          hash_runs = w.hash_runs + 1;
        },
      )
  unfolding authenticate TokenMapper.to_model
  login_trace active verified accepted = rw (active, verified, accepted) refl

  -- A login of an active account with its password returns a pair of tokens, if the database accepts
  -- the commit: one live token with a new family is stored behind the others, and nothing else of
  -- the two tables changes.
  pub login_starts_family :
      (h : IsSession db)
      → IsReady (h.contents w.session)
      → email env.lower env.repr command.email ≡ ok address
      → (get_by_email db env address w).0 ≡ ok (some user)
      → user.is_active ≡ true
      → env.verify command.password user.hashed_password.value ≡ true
      → (db.commit added).0 ≡ none
      → ((execute db env command w).0 ≡ ok pair)
        × ((h.contents (db.close (execute db env command w).1.session)).tokens
            ≡ (h.contents w.session).tokens ++ first_token ∷ [])
        × ((h.contents (db.close (execute db env command w).1.session)).users
            ≡ (h.contents w.session).users)
  unfolding execute
  login_starts_family h ready parsed looked active verified accepted =
      rw
        (
          parsed,
          looked,
          get_by_email_keeps db env address w,
          login_trace active verified accepted,
          h.close_lem,
          h.commit_stores added accepted,
          h.add_token_lem,
          ready.no_tokens,
          ready.no_users,
          append-nil,
        )
        (refl, refl, refl)
