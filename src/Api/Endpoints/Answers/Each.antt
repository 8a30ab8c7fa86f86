-- ===== src/Api/Endpoints/Answers/Each.antt =====
-- What each operation may answer.
use mathlib.Core.List.{append-nil}
use fastapi_starter.Prelude.{
  ℕ, ◌+◌, String, ◌≡◌, refl, ap, sym, ◌∙◌, Bool, true, ◌&&◌, Option, none, some, List, find, leb,
  ◌⊎◌, inl, inr, min, max, arith,
}
use fastapi_starter.Domain.Errors.{Result, ok, err, message}
use fastapi_starter.Domain.Users.{Uuid, User}
use fastapi_starter.Exec.{Errs, pure}
use fastapi_starter.Ports.{Env}
use fastapi_starter.Database.Session.{Session, IsSession, IsReady, has_id}
use fastapi_starter.Database.UserRepository
use fastapi_starter.Database.UserRepository.{load}
use fastapi_starter.Database.Faults.{
  OfSessions, NamesClashes, DecodeRaises, Apart, IsNormal, row_of_loaded,
}
use fastapi_starter.Auth.Login
use fastapi_starter.Auth.Login.{LoginCommand}
use fastapi_starter.Auth.Login.Raises as LoginRaises
use fastapi_starter.Auth.CurrentUser.{get_current_user}
use fastapi_starter.Auth.CurrentUser.Guard.{get_current_user_sound, get_current_user_keeps}
use fastapi_starter.Auth.CurrentUser.Raises.{get_current_user-Errs}
use fastapi_starter.Users.ChangePassword
use fastapi_starter.Users.ChangePassword.{ChangePasswordCommand}
use fastapi_starter.Users.ChangePassword.Raises as ChangePasswordRaises
use fastapi_starter.Queries
use fastapi_starter.Queries.{Cursors, list_rows, clause, decode_cursor}
use fastapi_starter.Database.Models.{UserModel, aware}
use fastapi_starter.RateLimit.{Redis, RateLimitSettings}
use fastapi_starter.Api.Problems.{RequestInfo, handle, spec_for, error_map, mro}
use fastapi_starter.Api.Routes.{documents}
use fastapi_starter.Api.Routes.Documented.{reply_status}
use fastapi_starter.Api.Endpoints
use fastapi_starter.Api.Endpoints.{
  Reply, sent, raised, unprocessable, Server, ChangePasswordRequest, authenticated, limited, answer,
  reply, if_valid, password_fits,
}
use fastapi_starter.Api.Endpoints.Answers.{
  Call, login, change_password, read_me, get_user, list_users, command_of, IsAnswered,
  error_documented, limited-IsAnswered, authenticated-IsAnswered, answer-IsAnswered,
  valid-IsAnswered,
}

module _ (phrase : ℕ → Option String) (request : RequestInfo)
    (issues : List (List String × String × String)) where
  module _ {S R : Type 0} (db : Session S) (env : Env) (redis : Redis R) (show : ℕ → String)
      (settings : RateLimitSettings) (email_str : String → Bool) (codec : Cursors) where
    list_rows-Errs :
        (limit : ℕ) (cursor : Option String) (rows : List UserModel)
        → Errs OfSessions (list_rows codec limit cursor rows)
    unfolding list_rows clause decode_cursor
    list_rows-Errs limit none rows = tt
    list_rows-Errs limit (some cursor) rows = ground arith

    module _ (h : IsSession db) (names : NamesClashes db h) (decodes : DecodeRaises env) where
      pub ready-Apart :
          (server : Server S R)
          → IsReady (h.contents server.world.session)
          → Apart db h server.world.session
      ready-Apart server ready = rw (ready.no_users, append-nil) ready.consistent.emails

      pub login_documented :
          (client : Option String) (body : LoginCommand) (server : Server S R)
          → Apart db h server.world.session
          → IsAnswered phrase request issues db env redis show settings email_str codec
              (login client body)
              (Endpoints.login db env redis show settings email_str codec client body server).0
      unfolding Endpoints.login
      login_documented client body server apart =
          let call = login client body in
          let handler = Login.execute db env body in
          let endpoint = answer db env redis show settings email_str codec 200 handler in
          limited-IsAnswered phrase request issues db env redis show settings email_str codec call
            "/api/v1/auth/login" client
            (if_valid db env redis show settings email_str codec (email_str body.email) endpoint)
            server refl
            λ cache.
              valid-IsAnswered phrase request issues db env redis show settings email_str codec call
                (email_str body.email) endpoint (record server { cache = cache }) (refl, refl, refl)
                (answer-IsAnswered phrase request issues db env redis show settings email_str codec
                  call 200 handler (record server { cache = cache }) (refl, refl, refl) refl
                  (LoginRaises.execute-Errs db env h names body server.world apart))

      -- Whom the dependency returns can be loaded by the key of the user that it returned.
      signed_in_stored :
          (credentials : String) (server : Server S R) (user : User)
          → IsNormal env (h.contents server.world.session).users
          → (get_current_user db env credentials server.world).0 ≡ ok user
          → load env.lower env.repr (db.get_user user.id.value server.world.session)
            ≡ ok (some user)
      unfolding UserRepository.get_by_id
      signed_in_stored credentials server user normal signed_in =
          let (payload, decoded, kind, id, parsed, loaded, active) =
            get_current_user_sound db env credentials server.world user signed_in in
          let s = server.world.session in
          let (m, found, key, own, address) =
            row_of_loaded env id.value (h.contents s).users user normal
              (ap (load env.lower env.repr) (sym (h.get_user_lem id.value s)) ∙ loaded) in
          ap (λ i. load env.lower env.repr (db.get_user i s)) key ∙ loaded

      pub change_password_documented :
          (credentials : String) (body : ChangePasswordRequest) (server : Server S R)
          → IsReady (h.contents server.world.session)
          → IsNormal env (h.contents server.world.session).users
          → IsAnswered phrase request issues db env redis show settings email_str codec
              (change_password credentials body)
              (Endpoints.change_password db env redis show settings email_str codec credentials body
                server).0
      unfolding Endpoints.change_password
      change_password_documented credentials body server ready normal =
          let call = change_password credentials body in
          authenticated-IsAnswered phrase request issues db env redis show settings email_str codec
            call credentials
            (λ user.
              if_valid db env redis show settings email_str codec (password_fits body.new_password)
                (answer db env redis show settings email_str codec 204
                  (ChangePassword.execute db env (command_of body user))))
            server (refl, refl, refl) decodes
            λ user signed_in.
              let handler = ChangePassword.execute db env (command_of body user) in
              let server' = record server {
                world = record server.world { calls = server.world.calls + 1 };
              } in
              valid-IsAnswered phrase request issues db env redis show settings email_str codec call
                (password_fits body.new_password)
                (answer db env redis show settings email_str codec 204 handler) server'
                (refl, refl, refl)
                (answer-IsAnswered phrase request issues db env redis show settings email_str codec
                  call 204 handler server' (refl, refl, refl) refl
                  (ChangePasswordRaises.execute-Errs db env h names (command_of body user) user
                    server'.world ready normal
                    (signed_in_stored credentials server user normal signed_in)))

      pub read_me_documented :
          (credentials : String) (server : Server S R)
          → IsAnswered phrase request issues db env redis show settings email_str codec
              (read_me credentials)
              (Endpoints.read_me db env redis show settings email_str codec credentials server).0
      unfolding Endpoints.read_me
      read_me_documented credentials server =
          authenticated-IsAnswered phrase request issues db env redis show settings email_str codec
            (read_me credentials) credentials
            (λ user. answer db env redis show settings email_str codec 200 (
              pure (record {
                id = user.id.value;
                email = user.email.value;
                is_active = user.is_active;
                created_at = aware user.created_at;
              })))
            server (refl, refl, refl) decodes (λ user signed_in. refl)

      pub list_users_documented :
          (credentials : String) (limit : ℕ) (cursor : Option String) (server : Server S R)
          → IsAnswered phrase request issues db env redis show settings email_str codec
              (list_users credentials limit cursor)
              (Endpoints.list_users db env redis show settings email_str codec credentials limit
                cursor server).0
      unfolding Endpoints.list_users Queries.list_users
      list_users_documented credentials limit cursor server =
          let call = list_users credentials limit cursor in
          let handler = Queries.list_users codec db limit cursor in
          let endpoint = answer db env redis show settings email_str codec 200 handler in
          let in_range = leb 1 limit && leb limit 100 in
          let server' = record server {
            world = record server.world { calls = server.world.calls + 1 };
          } in
          authenticated-IsAnswered phrase request issues db env redis show settings email_str codec
            call credentials
            (λ _. if_valid db env redis show settings email_str codec in_range endpoint) server
            (refl, refl, refl) decodes
            λ user signed_in.
              valid-IsAnswered phrase request issues db env redis show settings email_str codec call
                in_range endpoint server' (refl, refl, refl)
                (answer-IsAnswered phrase request issues db env redis show settings email_str codec
                  call 200 handler server' (refl, refl, refl) refl
                  (list_rows-Errs (max 1 (min limit 100)) cursor
                    (db.select_users server.world.session)))

      pub get_user_documented :
          (credentials : String) (id : Uuid) (server : Server S R)
          → (documents "GET" "/api/v1/users/{user_id}" (
                reply_status phrase request issues
                  (Endpoints.get_user db env redis show settings email_str codec credentials id
                    server).0)
              ≡ true)
            ⊎ (reply_status phrase request issues
                  (Endpoints.get_user db env redis show settings email_str codec credentials id
                    server).0
                ≡ 404)
      unfolding Endpoints.get_user Queries.get_user get_current_user handle spec_for error_map mro
          message
      get_user_documented credentials id server =
          by_caller (get_current_user db env credentials server.world).0 refl
            (get_current_user-Errs db env decodes credentials server.world)
            (find (has_id id) (db.select_users server.world.session)) refl
        where
          call : Call
          call = get_user credentials id

          by_caller :
              (r : Result User)
              → (get_current_user db env credentials server.world).0 ≡ r
              → Errs OfSessions r
              → (row : Option UserModel)
              → find (has_id id) (db.select_users server.world.session) ≡ row
              → (documents "GET" "/api/v1/users/{user_id}" (
                    reply_status phrase request issues
                      (Endpoints.get_user db env redis show settings email_str codec credentials id
                        server).0)
                  ≡ true)
                ⊎ (reply_status phrase request issues
                      (Endpoints.get_user db env redis show settings email_str codec credentials id
                        server).0
                    ≡ 404)
          by_caller (ok user) e errs none row_none =
              let kept = get_current_user_keeps db env credentials server.world in
              inr (rw (e, kept, row_none) refl)
          by_caller (ok user) e errs (some m) row_some =
              let kept = get_current_user_keeps db env credentials server.world in
              inl (rw (e, kept, row_some) refl)
          by_caller (err raising) e errs row lookup = inl (
              rw e (
                error_documented phrase request issues db env redis show settings email_str codec
                  call (refl, refl, refl) raising errs))
