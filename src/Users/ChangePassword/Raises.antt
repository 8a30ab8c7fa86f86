-- ===== src/Users/ChangePassword/Raises.antt =====
-- What a change of the password may raise, for a user who is stored.
use mathlib.Core.List.{append-nil}
use fastapi_starter.Prelude.{◌≡◌, ◌+◌, true, some, ap, ◌∙◌, find, sym, ◌++◌, List, [], ◌==◌}
use fastapi_starter.Domain.Errors.{message, ok}
use fastapi_starter.Exec.{Errs, resume-Errs, branch-Errs}
use fastapi_starter.Ports.{Env, World}
use fastapi_starter.Database.Session.{
  Session, IsSession, has_id, put_user, no_clash, same_email, IsReady,
}
use fastapi_starter.Database.UserRepository.{load}
use fastapi_starter.Domain.Users.{User}
use fastapi_starter.Database.Faults.{
  OfSessions, NamesClashes, commit-Errs, password-Errs, emails_decide, emails-put_user, IsNormal,
  row_of_loaded,
}
use fastapi_starter.Database.Models.{UserModel}
use fastapi_starter.Database.UserMapper
use fastapi_starter.Database.Tables.{find-id_self}
use fastapi_starter.Domain.Email.{hashed_password}
use fastapi_starter.Users.ChangePassword.{ChangePasswordCommand, execute, verified, replace}

put_row-apart :
    (m row : UserModel) (us : List UserModel)
    → no_clash (λ a b. a.id == b.id) us ≡ true
    → no_clash same_email us ≡ true
    → find (has_id m.id) us ≡ some row
    → m.email ≡ row.email
    → no_clash same_email (put_user m us ++ []) ≡ true
put_row-apart m row us ids emails found same =
    rw append-nil
      (emails_decide (put_user m us) us (emails-put_user row m us ids found same) ∙ emails)

module _ {S : Type 0} (db : Session S) (env : Env) (h : IsSession db)
    (names : NamesClashes db h) where
  replace-Errs :
      (command : ChangePasswordCommand) (user : User) (m : UserModel) (w : World S)
      → IsReady (h.contents w.session)
      → db.get_user user.id.value w.session ≡ some m
      → user.email.value ≡ m.email
      → Errs OfSessions (replace db env command user w).0
  unfolding replace UserMapper.apply_to_model
  replace-Errs command user m w ready found same =
      let w' : World S = record w { calls = w.calls + 1; hash_runs = w.hash_runs + 1 } in
      resume-Errs OfSessions (hashed_password (env.hash w.calls command.new_password)) _ w'
        (password-Errs env.lower env.repr (env.hash w.calls command.new_password))
        λ password. rw found (
          commit-Errs db h names _ (
            rw (h.update_tokens_lem, h.set_user_lem, ready.no_users)
              (put_row-apart
                (record m {
                  email = user.email.value;
                  hashed_password = password.value;
                  is_active = user.is_active;
                })
                m (h.contents w.session).users ready.consistent.ids ready.consistent.emails
                (find-id_self user.id.value (h.contents w.session).users
                  (sym (h.get_user_lem user.id.value w.session) ∙ found))
                same)))

  verified-Errs :
      (command : ChangePasswordCommand) (user : User) (m : UserModel) (w : World S)
      → IsReady (h.contents w.session)
      → db.get_user user.id.value w.session ≡ some m
      → user.email.value ≡ m.email
      → Errs OfSessions (verified db env command (some user) w).0
  unfolding verified message
  verified-Errs command user m w ready found same =
      let w' : World S = record w { calls = w.calls + 1; hash_runs = w.hash_runs + 1 } in
      branch-Errs OfSessions (env.verify command.current_password user.hashed_password.value) _ _ w'
        (replace-Errs command user m w' ready found same) tt

  -- The user is stored, as the dependency of the current user makes sure.
  pub execute-Errs :
      (command : ChangePasswordCommand) (user : User) (w : World S)
      → IsReady (h.contents w.session)
      → IsNormal env (h.contents w.session).users
      → load env.lower env.repr (db.get_user command.user_id w.session) ≡ ok (some user)
      → Errs OfSessions (execute db env command w).0
  unfolding execute
  execute-Errs command user w ready normal loaded =
      let (m, found, key, own, address) =
        row_of_loaded env command.user_id (h.contents w.session).users user normal (
          ap (load env.lower env.repr) (sym (h.get_user_lem command.user_id w.session)) ∙ loaded) in
      rw loaded (
        verified-Errs command user m w ready
          (ap (λ i. db.get_user i w.session) key ∙ h.get_user_lem command.user_id w.session ∙ found)
          address)
