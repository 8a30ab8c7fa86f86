-- ===== src/Auth/Logout/Effects.antt =====
-- What a logout does to the token table.
use mathlib.Core.List.{append-nil}
use fastapi_starter.Prelude.{
  ◌+◌, String, ◌≡◌, refl, ◌∙◌, true, none, some, All, find, arith, if◌then◌else◌,
}
use fastapi_starter.Domain.Errors.{ok}
use fastapi_starter.Domain.Users.{Uuid}
use fastapi_starter.Domain.Tokens.{is_set}
use fastapi_starter.Ports.{Env, World, refresh, TokenPayload}
use fastapi_starter.Database.Models.{RefreshTokenModel}
use fastapi_starter.Database.Session.{Session, IsSession, IsReady, has_jti, update_where}
use fastapi_starter.Database.Tables.{Holds-map_tokens}
use fastapi_starter.Database.TokenMapper
use fastapi_starter.Database.TokenRepository.{live_in_family, revoked_now}
use fastapi_starter.Auth.Refresh.Replay.{sweep_family-All}
use fastapi_starter.Auth.Logout.{execute}

module _ {S : Type 0} (db : Session S) (env : Env) (h : IsSession db) (w : World S) (token : String)
    (payload : TokenPayload) where
  abbrev swept : Uuid → S
  swept f = db.update_tokens (live_in_family f) (revoked_now (env.now (w.calls + 1))) w.session

  logout_trace :
      (m : RefreshTokenModel)
      → env.tokens.decode w.calls token ≡ ok payload
      → payload.token_type ≡ refresh
      → db.get_token payload.token_id w.session ≡ some m
      → (db.commit (swept m.family_id)).0 ≡ none
      → execute db env token w
        ≡ (ok tt, record w { session = (db.commit (swept m.family_id)).1; calls = w.calls + 1 + 1 })
  unfolding execute TokenMapper.to_domain
  logout_trace m decoded kind stored accepted = ground arith

  -- In a ready and consistent state, a logout with a stored refresh token returns, and afterwards
  -- every token of its family is revoked in the committed rows; the other rows and the users stay
  -- as they were.
  pub logout_revokes_family :
      (m : RefreshTokenModel)
      → IsReady (h.contents w.session)
      → env.tokens.decode w.calls token ≡ ok payload
      → payload.token_type ≡ refresh
      → find (has_jti payload.token_id) (h.contents w.session).tokens ≡ some m
      → ((execute db env token w).0 ≡ ok tt)
        × ((h.contents (db.close (execute db env token w).1.session)).tokens
            ≡ update_where
                (live_in_family m.family_id)
                (revoked_now (env.now (w.calls + 1)))
                (h.contents w.session).tokens)
        × ((h.contents (db.close (execute db env token w).1.session)).users
            ≡ (h.contents w.session).users)
        × All
            (λ r. r.family_id ≡ m.family_id → is_set r.revoked_at ≡ true)
            (h.contents (db.close (execute db env token w).1.session)).tokens
  logout_revokes_family m ready decoded kind found =
      let accepted : (db.commit (swept m.family_id)).0 ≡ none =
        h.commit_accepts (swept m.family_id) (
          rw (h.update_tokens_lem, ready.no_users, ready.no_tokens, append-nil, append-nil)
            (Holds-map_tokens
              (λ r.
                if live_in_family m.family_id r then revoked_now (env.now (w.calls + 1)) r else r)
              (λ r. ground arith) (λ r. ground arith) ready.consistent)) in
      let trace =
        logout_trace m decoded kind (h.get_token_lem payload.token_id w.session ∙ found) accepted in
      rw
        (
          trace,
          h.close_lem,
          h.commit_stores (swept m.family_id) accepted,
          h.update_tokens_lem,
          ready.no_users,
          ready.no_tokens,
          append-nil,
          append-nil,
        )
        (
          refl,
          refl,
          refl,
          sweep_family-All m.family_id (env.now (w.calls + 1)) (h.contents w.session).tokens,
        )

  -- A refresh token without a record is logged out already: success, and nothing changes.
  pub logout_idempotent :
      env.tokens.decode w.calls token ≡ ok payload
      → payload.token_type ≡ refresh
      → find (has_jti payload.token_id) (h.contents w.session).tokens ≡ none
      → execute db env token w ≡ (ok tt, record w { calls = w.calls + 1 })
  unfolding execute
  logout_idempotent decoded kind missing =
      let gone = h.get_token_lem payload.token_id w.session ∙ missing in ground arith
