-- ===== src/Tests/Accounts.antt =====
-- Runs of the account use cases on the concrete database.
use fastapi_starter.Prelude.{
  ◌≡◌, refl, true, none, some, List, [], ◌∷◌, ◌++◌, All, inl, inr, any, Option, if◌then◌else◌,
  Bool-cases,
}
use fastapi_starter.Domain.Errors.{ok, err, domain_of, invalid_credentials, email_already_exists}
use fastapi_starter.Domain.Email.{email, hashed_password}
use fastapi_starter.Domain.Tokens.{is_set}
use fastapi_starter.Ports.{World}
use fastapi_starter.Domain.Users.{pull_events, user_registered}
use fastapi_starter.Database.Models.{aware, UserModel}
use fastapi_starter.Database.Session.{
  Contents, CommitFault, integrity, Session, same_email, flushed, restored,
}
use fastapi_starter.Database.Memory.{memory, memory-IsSession}
use fastapi_starter.Database.TokenRepository.{revoked_now}
use fastapi_starter.Database.UnitOfWork.{names_email}
use fastapi_starter.Database.UserMapper
use fastapi_starter.Database.UserRepository.{get_by_email}
use fastapi_starter.Auth.Login
use fastapi_starter.Auth.Login.{LoginCommand}
use fastapi_starter.Auth.Login.Refusals.{login_refusals_alike}
use fastapi_starter.Auth.Login.Success.{login_starts_family}
use fastapi_starter.Database.UserMapper.RoundTrip.{to_domain-to_model}
use fastapi_starter.Users.CreateUser
use fastapi_starter.Users.CreateUser.{CreateUserCommand}
use fastapi_starter.Users.CreateUser.Effects.{register_stores}
use fastapi_starter.Users.CreateUser.Race.{IsShared, register_race}
use fastapi_starter.Users.ChangePassword
use fastapi_starter.Users.ChangePassword.{ChangePasswordCommand}
use fastapi_starter.Users.ChangePassword.Effects.{change_password_ends_sessions}
use fastapi_starter.Tests.{
  env, ann, bob, used, live, other_live, tables, start, tables-IsReady, ann_user, ann_loaded,
}

abbrev new_password : ChangePasswordCommand
new_password = record { user_id = 1; current_password = "secret"; new_password = "new" }

abbrev ann_changed : UserModel
ann_changed = record ann { hashed_password = "#new" }

change_password_ends_sessions_example :
    ((ChangePassword.execute memory env new_password start).0 ≡ ok tt)
    × ((memory.close (ChangePassword.execute memory env new_password start).1.session).users
        ≡ ann_changed ∷ bob ∷ [])
    × ((memory.close (ChangePassword.execute memory env new_password start).1.session).tokens
        ≡ used ∷ revoked_now 12 live ∷ other_live ∷ [])
    × All
        (λ r. r.user_id ≡ 1 → is_set r.revoked_at ≡ true)
        (memory.close (ChangePassword.execute memory env new_password start).1.session).tokens
unfolding memory memory-IsSession hashed_password
change_password_ends_sessions_example =
    change_password_ends_sessions memory env memory-IsSession start new_password ann ann_user
      tables-IsReady refl ann_loaded refl refl refl

abbrev joining : CreateUserCommand
joining = record { email = "  cy@x.org "; password = "pass word" }

abbrev cy : UserModel
cy = record {
  id = 10;
  email = "cy@x.org";
  hashed_password = "#pass word";
  is_active = true;
  created_at = aware 12;
}

register_stores_example :
    ((CreateUser.execute memory env joining start).0
      ≡ ok (record { id = 10; email = "cy@x.org"; is_active = true; created_at = aware 12 }))
    × ((memory.close (CreateUser.execute memory env joining start).1.session).users
        ≡ ann ∷ bob ∷ cy ∷ [])
    × ((CreateUser.execute memory env joining start).1.dispatched
        ≡ user_registered (record { user_id = 10; email = "cy@x.org"; occurred_at = 12 }) ∷ [])
unfolding memory memory-IsSession email hashed_password
register_stores_example =
    register_stores memory env memory-IsSession start joining (record { value = "cy@x.org" })
      tables-IsReady refl refl refl refl

abbrev guess : LoginCommand
guess = record { email = "ann@x.org"; password = "guess" }

login_refusals_alike_example :
    Login.execute memory env guess start
    ≡ (err (domain_of invalid_credentials), record start { calls = 11; hash_runs = 1 })
unfolding memory email get_by_email UserMapper.to_domain hashed_password
login_refusals_alike_example =
    login_refusals_alike memory env guess (record { value = "ann@x.org" }) (some ann_user) start
      refl refl (inr refl)

-- A session beside requests that have committed the given rows, which it has not seen.
abbrev commit_beside : Contents × List UserModel → Option CommitFault × (Contents × List UserModel)
commit_beside (c, unseen) =
    if any (λ m. any (same_email m) unseen) c.new_users
    then (
      some (integrity "duplicate key value violates unique constraint ix_users_email"),
      (c, unseen),
    )
    else (none, (flushed c, unseen))

abbrev shared : Session (Contents × List UserModel)
shared = record {
  get_user = λ i s. memory.get_user i s.0;
  get_token = λ j s. memory.get_token j s.0;
  select_users = λ s. s.0.users;
  add_user = λ m s. (record s.0 { new_users = s.0.new_users ++ m ∷ [] }, s.1);
  add_token = λ m s. (memory.add_token m s.0, s.1);
  set_user = λ m s. (memory.set_user m s.0, s.1);
  set_token = λ m s. (memory.set_token m s.0, s.1);
  update_tokens = λ test change s. (memory.update_tokens test change s.0, s.1);
  commit = commit_beside;
  rollback = λ s. (restored s.0, s.1);
  close = λ s. (restored s.0, s.1);
}

refused_restored :
    (c : Contents) (unseen : List UserModel) (fault : CommitFault)
    → (commit_beside (c, unseen)).0 ≡ some fault
    → restored (commit_beside (c, unseen)).1.0 ≡ restored c
refused_restored c unseen fault e =
    elim (Bool-cases (any (λ m. any (same_email m) unseen) c.new_users)) [
      | inl hit ↦ rw hit
      | inr miss ↦ let e' = rw miss at e in cc
    ]

abbrev shared-IsShared : IsShared shared
shared-IsShared = record {
  contents = λ s. s.0;
  select_users_lem = λ s. refl;
  add_user_lem = λ m s. refl;
  rollback_lem = λ s fault e. refused_restored s.0 s.1 fault e;
  close_lem = λ s. refl;
}

abbrev raced : World (Contents × List UserModel)
raced = record { session = (tables, cy ∷ []); calls = 10; hash_runs = 0; dispatched = [] }

register_race_example :
    ((CreateUser.execute shared env joining raced).0 ≡ err (domain_of email_already_exists))
    × ((CreateUser.execute shared env joining raced).1.session.0 ≡ restored tables)
    × ((CreateUser.execute shared env joining raced).1.dispatched ≡ [])
unfolding email hashed_password names_email
register_race_example =
    register_race shared env shared-IsShared raced joining (record { value = "cy@x.org" })
      "duplicate key value violates unique constraint ix_users_email" refl refl refl refl refl

abbrev pub right : LoginCommand
right = record { email = "ann@x.org"; password = "secret" }

login_starts_family_example :
    ((Login.execute memory env right start).0
      ≡ ok (record { access_token = "access"; refresh_token = "refresh" }))
    × ((memory.close (Login.execute memory env right start).1.session).tokens
        ≡ used
          ∷ live
          ∷ other_live
          ∷ record {
            jti = 11;
            user_id = 1;
            family_id = 13;
            expires_at = aware 1012;
            revoked_at = none;
          }
          ∷ [])
    × ((memory.close (Login.execute memory env right start).1.session).users ≡ ann ∷ bob ∷ [])
unfolding memory memory-IsSession email get_by_email UserMapper.to_domain hashed_password
login_starts_family_example =
    login_starts_family memory env start right (record { value = "ann@x.org" }) ann_user
      memory-IsSession tables-IsReady refl refl refl refl refl

to_domain-to_model_example :
    (UserMapper.to_domain env.lower env.repr (UserMapper.to_model ann_user) ≡ ok ann_user)
    × (UserMapper.to_domain env.lower env.repr (UserMapper.apply_to_model ann_user ann)
        ≡ ok ann_user)
unfolding email hashed_password UserMapper.to_model pull_events
to_domain-to_model_example = to_domain-to_model env.lower env.repr ann_user ann refl refl refl refl
