-- ===== src/Requests/Begun.antt =====
-- A session that a login begins can be carried on.
use mathlib.Core.List.{append-nil}
use fastapi_starter.Prelude.{
  ◌+◌, ◌<◌, ◌≡◌, refl, Bool, true, false, none, some, List, [], ◌∷◌, ◌++◌, find, any, arith,
}
use fastapi_starter.Domain.Errors.{ok}
use fastapi_starter.Domain.Email.{Email, email}
use fastapi_starter.Domain.Users.{User}
use fastapi_starter.Ports.{refresh, TokenPayload, Env, World}
use fastapi_starter.Database.Models.{UserModel}
use fastapi_starter.Database.Session.{Session, IsSession, IsReady, has_id, has_jti}
use fastapi_starter.Database.Tables.{Holds-add_token, some_of_find}
use fastapi_starter.Database.UserMapper
use fastapi_starter.Database.UserRepository.{get_by_email, loaded_row, load-some}
use fastapi_starter.Auth.Login.{LoginCommand, TokenPair}
use fastapi_starter.Auth.Login.Success as Login
use fastapi_starter.Auth.Refresh
use fastapi_starter.Auth.Refresh.Rotation
use fastapi_starter.Auth.Refresh.Rotation.{refresh_rotates}
use fastapi_starter.Requests.{login, serve}
use fastapi_starter.Requests.History.{serve-Refines}

find-append_new {ℓ} :
    {A : Type ℓ} (p : A → Bool) (xs : List A) (x : A)
    → any p xs ≡ false
    → p x ≡ true
    → find p (xs ++ x ∷ []) ≡ some x
find-append_new p [] x new hit = rw hit refl
find-append_new p (y ∷ xs) x new hit = ground (arith, find-append_new p xs x)

module _ {S : Type 0} (db : Session S) (env : Env) (h : IsSession db) (w : World S)
    (command : LoginCommand) (address : Email) (row : UserModel) (user : User) where
  -- The state that the login leaves.
  abbrev pub v : World S
  v = serve db env (login command) w

  abbrev pub issued : TokenPair
  issued = Login.pair db env w command address user

  accepted :
      IsReady (h.contents w.session)
      → any (has_jti (env.uuid4 (w.calls + 1))) (h.contents w.session).tokens ≡ false
      → any (has_id user.id.value) (h.contents w.session).users ≡ true
      → (db.commit (Login.added db env w command address user)).0 ≡ none
  accepted ready new known = h.commit_accepts (Login.added db env w command address user) (
      rw (h.add_token_lem, ready.no_users, ready.no_tokens, append-nil)
        (Holds-add_token (Login.first_token db env w command address user) new known
          ready.consistent))

  -- An active user who logs in with the password gets a refresh token that the next request can
  -- exchange, while it has not expired, for a new pair: if the token service reads back the id and
  -- the user that it was given, and neither new id is in use.
  pub login_then_refresh :
      (payload : TokenPayload)
      → IsReady (h.contents w.session)
      → email env.lower env.repr command.email ≡ ok address
      → (get_by_email db env address w).0 ≡ ok (some user)
      → find (has_id row.id) (h.contents w.session).users ≡ some row
      → UserMapper.to_domain env.lower env.repr row ≡ ok user
      → user.is_active ≡ true
      → env.verify command.password user.hashed_password.value ≡ true
      → any (has_jti (env.uuid4 (w.calls + 1))) (h.contents w.session).tokens ≡ false
      → env.tokens.decode v.calls issued.refresh_token ≡ ok payload
      → payload.token_type ≡ refresh
      → payload.token_id ≡ env.uuid4 (w.calls + 1)
      → env.uuid_parse payload.subject ≡ some row.id
      → env.now (v.calls + 1)
        < (env.tokens.create_refresh_token
            (w.calls + 1 + 1)
            (env.uuid_str user.id.value)
            (env.uuid4 (w.calls + 1))).expires_at
      → any (has_jti (env.uuid4 (v.calls + 1 + 1))) (h.contents v.session).tokens ≡ false
      → (Refresh.execute db env issued.refresh_token v).0
        ≡ ok (
            Rotation.pair db env v issued.refresh_token payload
              (Login.first_token db env w command address user)
              row
              user)
  unfolding serve
  login_then_refresh payload ready parsed looked known loaded active verified new decoded kind id
        subject fresh unused =
      let (key, _) =
        load-some env.lower env.repr row user (loaded_row env.lower env.repr row loaded) in
      let owner : any (has_id user.id.value) (h.contents w.session).users ≡ true =
        rw key (some_of_find (has_id row.id) _ known) in
      let token = Login.first_token db env w command address user in
      let (result, tokens, users) =
        Login.login_starts_family db env w command address user h ready parsed looked active
          verified (accepted ready new owner) in
      let found : find (has_jti payload.token_id) (h.contents v.session).tokens ≡ some token =
        rw (tokens, id)
          (find-append_new (has_jti (env.uuid4 (w.calls + 1))) (h.contents w.session).tokens token
            new (ground arith)) in
      (refresh_rotates db env v issued.refresh_token payload token row user h
        (serve-Refines db env h (login command) w ready).ready decoded kind found refl fresh subject
        (rw users known) loaded active unused).0
