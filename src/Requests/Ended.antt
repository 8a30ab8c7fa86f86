-- ===== src/Requests/Ended.antt =====
-- A session that was ended stays ended, whatever is requested afterwards.
use fastapi_starter.Prelude.{
  ◌+◌, String, ◌≡◌, refl, ◌∙◌, none, some, inl, inr, Bool, true, Bool-cases, Option-cases, List, [],
  ◌∷◌, find, arith, ap, if◌then◌else◌,
}
use mathlib.Core.Option
use fastapi_starter.Domain.Errors.{ok, err, domain_of, invalid_token}
use fastapi_starter.Domain.Email.{hashed_password}
use fastapi_starter.Domain.Users.{Uuid, Instant, User}
use fastapi_starter.Ports.{refresh, TokenPayload, Env, World}
use fastapi_starter.Database.Models.{Datetime, aware, UserModel, RefreshTokenModel}
use fastapi_starter.Database.Session.{Session, IsSession, IsReady, has_id, has_jti, update_where}
use fastapi_starter.Database.TokenRepository.{live_in_family, live_of_user, revoked_now}
use fastapi_starter.Database.UserMapper
use fastapi_starter.Families.Persistence.{find-map_jti}
use fastapi_starter.Auth.Refresh
use fastapi_starter.Auth.Refresh.Replay.{replay_revokes_family}
use fastapi_starter.Auth.Logout.Effects.{logout_revokes_family}
use fastapi_starter.Users.ChangePassword.{ChangePasswordCommand}
use fastapi_starter.Users.ChangePassword.Effects.{changed, change_password_ends_sessions}
use fastapi_starter.Requests.{Request, logout, change_password, serve, serve_all}
use fastapi_starter.Requests.History.{serve-Refines, serve_all-KeepsRevoked}

-- A row that a sweep takes if it is live is revoked afterwards.
swept_row :
    (test : RefreshTokenModel → Bool) (at : Instant) (j : Uuid) (rows : List RefreshTokenModel)
    (r : RefreshTokenModel)
    → find (has_jti j) rows ≡ some r
    → (r.revoked_at ≡ none → test r ≡ true)
    → (r' : RefreshTokenModel) × (when : Datetime) × (find
          (has_jti j)
          (update_where test (revoked_now at) rows)
        ≡ some r')
      × (r'.revoked_at ≡ some when)
swept_row test at j rows r found takes =
    let moved =
      find-map_jti (λ m. if test m then revoked_now at m else m) (λ m. ground arith) j rows
      ∙ ap (Option.map (λ m. if test m then revoked_now at m else m)) found in
    elim (Bool-cases (test r)) [
      | inl taken ↦ (revoked_now at r, aware at, rw taken at moved, refl)
      | inr left ↦ elim (Option-cases r.revoked_at) [
        | inl live ↦ let t = takes live in cc
        | inr (when, revoked) ↦ (r, when, rw left at moved, revoked)
      ]
    ]

module _ {S : Type 0} (db : Session S) (env : Env) (h : IsSession db) where
  serve_all-IsReady :
      (requests : List Request) (w : World S)
      → IsReady (h.contents w.session)
      → IsReady (h.contents (serve_all db env requests w).session)
  unfolding serve_all
  serve_all-IsReady [] w ready = ready
  serve_all-IsReady (request ∷ rest) w ready =
      serve_all-IsReady rest (serve db env request w) (serve-Refines db env h request w ready).ready

  -- What is refused at any later time.
  refused_later :
      (requests : List Request) (w : World S) (token : String) (payload : TokenPayload)
      (r : RefreshTokenModel) (at : Datetime)
      → IsReady (h.contents w.session)
      → find (has_jti payload.token_id) (h.contents w.session).tokens ≡ some r
      → r.revoked_at ≡ some at
      → env.tokens.decode (serve_all db env requests w).calls token ≡ ok payload
      → payload.token_type ≡ refresh
      → (Refresh.execute db env token (serve_all db env requests w)).0
        ≡ err (domain_of invalid_token)
  refused_later requests w token payload r at ready found revoked decoded kind =
      let kept =
        serve_all-KeepsRevoked db env h requests w ready payload.token_id r at found revoked in
      (replay_revokes_family db env h (serve_all db env requests w) token payload r at
        (serve_all-IsReady requests w ready) decoded kind kept revoked).0

  -- Once a logout has ended a session, whatever requests follow, no refresh token that its family
  -- had is exchanged again: each is refused with InvalidTokenError.
  pub logout_is_final :
      (requests : List Request) (w : World S) (token late : String) (payload later : TokenPayload)
      (m r : RefreshTokenModel)
      → IsReady (h.contents w.session)
      → env.tokens.decode w.calls token ≡ ok payload
      → payload.token_type ≡ refresh
      → find (has_jti payload.token_id) (h.contents w.session).tokens ≡ some m
      → find (has_jti later.token_id) (h.contents w.session).tokens ≡ some r
      → r.family_id ≡ m.family_id
      → env.tokens.decode (serve_all db env requests (serve db env (logout token) w)).calls late
        ≡ ok later
      → later.token_type ≡ refresh
      → (Refresh.execute db env late (serve_all db env requests (serve db env (logout token) w))).0
        ≡ err (domain_of invalid_token)
  unfolding serve
  logout_is_final requests w token late payload later m r ready decoded kind found member same again
        kind' =
      let (_, rows, _, _) =
        logout_revokes_family db env h w token payload m ready decoded kind found in
      let (r', at, there, revoked) =
        swept_row (live_in_family m.family_id) (env.now (w.calls + 1)) later.token_id
          (h.contents w.session).tokens r member (λ live. ground arith) in
      refused_later requests (serve db env (logout token) w) late later r' at
        (serve-Refines db env h (logout token) w ready).ready (rw rows there) revoked again kind'

  -- Once an accepted change of the password has ended the sessions of a user, whatever requests
  -- follow, no refresh token that the user had is exchanged again.
  pub password_change_is_final :
      (requests : List Request) (w : World S) (command : ChangePasswordCommand) (late : String)
      (later : TokenPayload) (row : UserModel) (user : User) (r : RefreshTokenModel)
      → IsReady (h.contents w.session)
      → find (has_id command.user_id) (h.contents w.session).users ≡ some row
      → UserMapper.to_domain env.lower env.repr row ≡ ok user
      → env.verify command.current_password user.hashed_password.value ≡ true
      → hashed_password (env.hash (w.calls + 1) command.new_password)
        ≡ ok (record { value = env.hash (w.calls + 1) command.new_password })
      → (db.commit (changed db env h w command row user)).0 ≡ none
      → find (has_jti later.token_id) (h.contents w.session).tokens ≡ some r
      → r.user_id ≡ user.id.value
      → env.tokens.decode
          (serve_all db env requests (serve db env (change_password command) w)).calls
          late
        ≡ ok later
      → later.token_type ≡ refresh
      → (Refresh.execute db env late
          (serve_all db env requests (serve db env (change_password command) w))).0
        ≡ err (domain_of invalid_token)
  unfolding serve
  password_change_is_final requests w command late later row user r ready found loaded verified
        hashed accepted member own again kind' =
      let (_, _, rows, _) =
        change_password_ends_sessions db env h w command row user ready found loaded verified hashed
          accepted in
      let (r', at, there, revoked) =
        swept_row (live_of_user user.id.value) (env.now (w.calls + 1 + 1)) later.token_id
          (h.contents w.session).tokens r member (λ live. ground arith) in
      refused_later requests (serve db env (change_password command) w) late later r' at
        (serve-Refines db env h (change_password command) w ready).ready (rw rows there) revoked
        again kind'
