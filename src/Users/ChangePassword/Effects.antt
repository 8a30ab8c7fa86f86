-- ===== src/Users/ChangePassword/Effects.antt =====
-- What a change of the password does to the two tables.
use mathlib.Core.List.{append-nil}
use fastapi_starter.Prelude.{
  ◌+◌, String, ◌≡◌, refl, ◌∙◌, true, none, some, List, [], ◌∷◌, All, find, arith,
}
use fastapi_starter.Domain.Errors.{ok}
use fastapi_starter.Domain.Email.{hashed_password}
use fastapi_starter.Domain.Users.{Uuid, Instant, User}
use fastapi_starter.Domain.Tokens.{is_set}
use fastapi_starter.Ports.{Env, World}
use fastapi_starter.Database.Models.{UserModel, RefreshTokenModel}
use fastapi_starter.Database.Session.{Session, IsSession, IsReady, has_id, put_user, update_where}
use fastapi_starter.Database.Tables.{find-id_self}
use fastapi_starter.Database.UserMapper
use fastapi_starter.Database.UserRepository.{load, loaded_row, load-some}
use fastapi_starter.Database.TokenRepository.{live_of_user, revoked_now}
use fastapi_starter.Users.ChangePassword.{ChangePasswordCommand, execute}

module _ {S : Type 0} (db : Session S) (env : Env) (h : IsSession db) (w : World S)
    (command : ChangePasswordCommand) (row : UserModel) (user : User) where
  abbrev new_hash : String
  new_hash = env.hash (w.calls + 1) command.new_password

  abbrev new_row : UserModel
  new_row = record row {
    email = user.email.value;
    hashed_password = new_hash;
    is_active = user.is_active;
  }

  abbrev pub changed : S
  changed =
      db.update_tokens (live_of_user user.id.value) (revoked_now (env.now (w.calls + 1 + 1)))
        (db.set_user new_row w.session)

  change_trace :
      db.get_user command.user_id w.session ≡ some row
      → db.get_user user.id.value w.session ≡ some row
      → UserMapper.to_domain env.lower env.repr row ≡ ok user
      → env.verify command.current_password user.hashed_password.value ≡ true
      → hashed_password new_hash ≡ ok (record { value = new_hash })
      → (db.commit changed).0 ≡ none
      → execute db env command w ≡ (
        ok tt,
        record w {
          session = (db.commit changed).1;
          calls = w.calls + 1 + 1 + 1;
          hash_runs = w.hash_runs + 1 + 1;
        },
      )
  unfolding execute load UserMapper.apply_to_model
  change_trace stored again loaded verified hashed accepted =
      let found = loaded_row env.lower env.repr row loaded in ground arith

  -- A user's every token is revoked after the sweep.
  sweep_user-All :
      (u : Uuid) (at : Instant) (rows : List RefreshTokenModel)
      → All
          (λ r. r.user_id ≡ u → is_set r.revoked_at ≡ true)
          (update_where (live_of_user u) (revoked_now at) rows)
  sweep_user-All u at [] = tt
  sweep_user-All u at (r ∷ rows) = (λ e. ground arith, sweep_user-All u at rows)

  -- A change of the password by a stored user who gives the current one, if the database accepts
  -- the commit: it returns, the user's row holds the hash of the new password and is otherwise the
  -- loaded user's, every token of the user is revoked, and all other rows are unchanged.
  pub change_password_ends_sessions :
      IsReady (h.contents w.session)
      → find (has_id command.user_id) (h.contents w.session).users ≡ some row
      → UserMapper.to_domain env.lower env.repr row ≡ ok user
      → env.verify command.current_password user.hashed_password.value ≡ true
      → hashed_password new_hash ≡ ok (record { value = new_hash })
      → (db.commit changed).0 ≡ none
      → ((execute db env command w).0 ≡ ok tt)
        × ((h.contents (db.close (execute db env command w).1.session)).users
            ≡ put_user new_row (h.contents w.session).users)
        × ((h.contents (db.close (execute db env command w).1.session)).tokens
            ≡ update_where
                (live_of_user user.id.value)
                (revoked_now (env.now (w.calls + 1 + 1)))
                (h.contents w.session).tokens)
        × All
            (λ r. r.user_id ≡ user.id.value → is_set r.revoked_at ≡ true)
            (h.contents (db.close (execute db env command w).1.session)).tokens
  change_password_ends_sessions ready found loaded verified hashed accepted =
      let (key, _) =
        load-some env.lower env.repr row user (loaded_row env.lower env.repr row loaded) in
      let self = find-id_self command.user_id (h.contents w.session).users found in
      let again : db.get_user user.id.value w.session ≡ some row = rw (h.get_user_lem, key) self in
      let trace =
        change_trace (h.get_user_lem command.user_id w.session ∙ found) again loaded verified hashed
          accepted in
      rw
        (
          trace,
          h.close_lem,
          h.commit_stores changed accepted,
          h.update_tokens_lem,
          h.set_user_lem,
          ready.no_users,
          ready.no_tokens,
          append-nil,
          append-nil,
        )
        (
          refl,
          refl,
          refl,
          sweep_user-All user.id.value (env.now (w.calls + 1 + 1)) (h.contents w.session).tokens,
        )
