-- ===== src/Users/CreateUser/Race.antt =====
-- A registration whose address another request takes between the check and the commit.
use fastapi_starter.Prelude.{◌+◌, String, ◌≡◌, refl, true, false, some, [], ◌∷◌, ◌++◌, any}
use fastapi_starter.Domain.Errors.{ok, err, domain_of, email_already_exists}
use fastapi_starter.Domain.Email.{Email, email, hashed_password}
use fastapi_starter.Ports.{Env, World}
use fastapi_starter.Database.Models.{UserModel, aware}
use fastapi_starter.Database.Session.{Session, Contents, CommitFault, integrity, restored}
use fastapi_starter.Database.UserMapper
use fastapi_starter.Database.UnitOfWork.{names_email, commit}
use fastapi_starter.Database.UserRepository.{with_email}
use fastapi_starter.Users.CreateUser.{CreateUserCommand, execute}

-- The documented behaviour of a session beside others, where a commit may be refused for rows that
-- this session has not seen.
pub record IsShared {S : Type 0} (db : Session S) : Type 0 where
  pub contents : S → Contents
  pub select_users_lem : (s : S) → db.select_users s ≡ (contents s).users
  pub add_user_lem :
      (m : UserModel) (s : S)
      → contents (db.add_user m s)
        ≡ record (contents s) { new_users = (contents s).new_users ++ m ∷ [] }
  pub rollback_lem :
      (s : S) (fault : CommitFault)
      → (db.commit s).0 ≡ some fault
      → contents (db.rollback (db.commit s).1) ≡ restored (contents s)
  pub close_lem : (s : S) → contents (db.close s) ≡ restored (contents s)

module _ {S : Type 0} (db : Session S) (env : Env) (h : IsShared db) (w : World S)
    (command : CreateUserCommand) (address : Email) where
  abbrev pub row : UserModel
  row = record {
    id = env.uuid4 w.calls;
    email = address.value;
    hashed_password = env.hash (w.calls + 1) command.password;
    is_active = true;
    created_at = aware (env.now (w.calls + 1 + 1));
  }

  -- If the address is free when the registration looks, and the commit raises an IntegrityError
  -- that names it, because another request took it in between, then EmailAlreadyExistsError is
  -- raised, the session sees the committed rows again, and no event is delivered.
  pub register_race :
      (message : String)
      → email env.lower env.repr command.email ≡ ok address
      → any (with_email address.value) (h.contents w.session).users ≡ false
      → hashed_password (env.hash (w.calls + 1) command.password)
        ≡ ok (record { value = env.hash (w.calls + 1) command.password })
      → (db.commit (db.add_user row w.session)).0 ≡ some (integrity message)
      → names_email message ≡ true
      → ((execute db env command w).0 ≡ err (domain_of email_already_exists))
        × (h.contents (execute db env command w).1.session ≡ restored (h.contents w.session))
        × ((execute db env command w).1.dispatched ≡ w.dispatched)
  unfolding execute commit UserMapper.to_model
  register_race message parsed unused hashed refused named =
      let vacant : any (with_email address.value) (db.select_users w.session) ≡ false =
        rw h.select_users_lem unused in
      rw
        (
          parsed,
          vacant,
          hashed,
          refused,
          named,
          h.rollback_lem (db.add_user row w.session) (integrity message) refused,
          h.add_user_lem,
        )
        (refl, refl, refl)
