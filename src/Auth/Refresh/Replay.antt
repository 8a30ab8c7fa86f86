-- ===== src/Auth/Refresh/Replay.antt =====
-- A refresh token that was rotated or revoked already is presented again.
use mathlib.Core.List.{append-nil}
use fastapi_starter.Prelude.{
  ◌+◌, String, ◌≡◌, refl, ◌∙◌, true, none, some, List, [], ◌∷◌, find, All, arith, if◌then◌else◌,
}
use fastapi_starter.Domain.Errors.{ok, err, domain_of, invalid_token}
use fastapi_starter.Domain.Users.{Uuid, Instant}
use fastapi_starter.Domain.Tokens.{is_set}
use fastapi_starter.Ports.{refresh, TokenPayload, Env, World}
use fastapi_starter.Database.Models.{Datetime, RefreshTokenModel}
use fastapi_starter.Database.Session.{Session, IsSession, has_jti, IsReady, update_where}
use fastapi_starter.Database.Tables.{Holds-map_tokens}
use fastapi_starter.Database.TokenRepository.{live_in_family, revoked_now}
use fastapi_starter.Database.TokenMapper
use fastapi_starter.Auth.Refresh.{execute}

-- After the sweep no row of the family is live.
pub sweep_family-All :
    (f : Uuid) (at : Instant) (rows : List RefreshTokenModel)
    → All
        (λ r. r.family_id ≡ f → is_set r.revoked_at ≡ true)
        (update_where (live_in_family f) (revoked_now at) rows)
sweep_family-All f at [] = tt
sweep_family-All f at (r ∷ rows) = (λ e. ground arith, sweep_family-All f at rows)

module _ {S : Type 0} (db : Session S) (env : Env) (h : IsSession db) (w : World S) (token : String)
    (payload : TokenPayload) (m : RefreshTokenModel) (at : Datetime) where
  abbrev swept : S
  swept =
      db.update_tokens (live_in_family m.family_id) (revoked_now (env.now (w.calls + 1))) w.session

  swept_rows : List RefreshTokenModel
  swept_rows =
      update_where (live_in_family m.family_id) (revoked_now (env.now (w.calls + 1)))
        (h.contents w.session).tokens

  replay_trace :
      env.tokens.decode w.calls token ≡ ok payload
      → payload.token_type ≡ refresh
      → db.get_token payload.token_id w.session ≡ some m
      → m.revoked_at ≡ some at
      → (db.commit swept).0 ≡ none
      → execute db env token w ≡ (
        err (domain_of invalid_token),
        record w { session = (db.commit swept).1; calls = w.calls + 1 + 1 },
      )
  unfolding execute TokenMapper.to_domain
  replay_trace decoded kind stored revoked accepted = ground arith

  swept_accepted : IsReady (h.contents w.session) → (db.commit swept).0 ≡ none
  swept_accepted ready = h.commit_accepts swept (
      rw (h.update_tokens_lem, ready.no_users, ready.no_tokens, append-nil, append-nil)
        (Holds-map_tokens
          (λ r. if live_in_family m.family_id r then revoked_now (env.now (w.calls + 1)) r else r)
          (λ r. ground arith) (λ r. ground arith) ready.consistent))

  -- In a ready and consistent state, a stored refresh token that is revoked already is refused with
  -- InvalidTokenError, and every live token of its family, and no other row, is revoked in the
  -- committed rows; the users stay as they were.
  pub replay_revokes_family :
      IsReady (h.contents w.session)
      → env.tokens.decode w.calls token ≡ ok payload
      → payload.token_type ≡ refresh
      → find (has_jti payload.token_id) (h.contents w.session).tokens ≡ some m
      → m.revoked_at ≡ some at
      → ((execute db env token w).0 ≡ err (domain_of invalid_token))
        × ((h.contents (db.close (execute db env token w).1.session)).tokens
            ≡ update_where
                (live_in_family m.family_id)
                (revoked_now (env.now (w.calls + 1)))
                (h.contents w.session).tokens)
        × ((h.contents (db.close (execute db env token w).1.session)).users
            ≡ (h.contents w.session).users)
        × All
            (λ r. r.family_id ≡ m.family_id → is_set r.revoked_at ≡ true)
            (h.contents (db.close (execute db env token w).1.session)).tokens
  replay_revokes_family ready decoded kind found revoked =
      let accepted = swept_accepted ready in
      let trace =
        replay_trace decoded kind (h.get_token_lem payload.token_id w.session ∙ found) revoked
          accepted in
      rw
        (
          trace,
          h.close_lem,
          h.commit_stores swept accepted,
          h.update_tokens_lem,
          ready.no_users,
          ready.no_tokens,
          append-nil,
          append-nil,
        )
        (
          refl,
          refl,
          refl,
          sweep_family-All m.family_id (env.now (w.calls + 1)) (h.contents w.session).tokens,
        )
