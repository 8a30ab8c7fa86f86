-- ===== src/Users/CreateUser/Effects.antt =====
-- What a registration does to the users table and to the events.
use fastapi_starter.Prelude.{◌+◌, ◌≡◌, refl, true, false, none, [], ◌∷◌, ◌++◌, any}
use fastapi_starter.Domain.Errors.{ok, err, domain_of, email_already_exists}
use fastapi_starter.Domain.Email.{Email, email, hashed_password}
use fastapi_starter.Domain.Users.{UserRegistered, user_registered}
use fastapi_starter.Ports.{Env, World}
use fastapi_starter.Database.Models.{UserModel, aware}
use fastapi_starter.Database.Session.{Session, IsSession, IsReady}
use fastapi_starter.Database.UserMapper
use fastapi_starter.Database.UnitOfWork.{commit}
use fastapi_starter.Database.UserRepository.{with_email}
use fastapi_starter.Users.CreateUser.{CreateUserCommand, UserView, execute}

module _ {S : Type 0} (db : Session S) (env : Env) (h : IsSession db) (w : World S)
    (command : CreateUserCommand) (address : Email) where
  abbrev pub new_row : UserModel
  new_row = record {
    id = env.uuid4 w.calls;
    email = address.value;
    hashed_password = env.hash (w.calls + 1) command.password;
    is_active = true;
    created_at = aware (env.now (w.calls + 1 + 1));
  }

  abbrev added : S
  added = db.add_user new_row w.session

  abbrev pub view : UserView
  view = record {
    id = env.uuid4 w.calls;
    email = address.value;
    is_active = true;
    created_at = aware (env.now (w.calls + 1 + 1));
  }

  abbrev registered : UserRegistered
  registered = record {
    user_id = env.uuid4 w.calls;
    email = address.value;
    occurred_at = env.now (w.calls + 1 + 1);
  }

  -- The state in which a registration asks for the commit.
  abbrev pub asked : World S
  asked = record w { session = added; calls = w.calls + 1 + 1 + 1; hash_runs = w.hash_runs + 1 }

  module _ (ready : IsReady (h.contents w.session))
      (parsed : email env.lower env.repr command.email ≡ ok address)
      (unused : any (with_email address.value) (h.contents w.session).users ≡ false)
      (hashed : hashed_password (env.hash (w.calls + 1) command.password)
        ≡ ok (record { value = env.hash (w.calls + 1) command.password })) where
    vacant : any (with_email address.value) (db.select_users w.session) ≡ false
    vacant = rw h.select_users_lem unused

    -- If the database accepts the commit, a registration with a free address returns the view of
    -- the new user, whose row is stored behind the others, and then delivers one event about it.
    pub register_stores :
        (db.commit added).0 ≡ none
        → ((execute db env command w).0 ≡ ok view)
          × ((h.contents (db.close (execute db env command w).1.session)).users
              ≡ (h.contents w.session).users ++ new_row ∷ [])
          × ((execute db env command w).1.dispatched
              ≡ w.dispatched ++ user_registered registered ∷ [])
    unfolding execute commit UserMapper.to_model
    register_stores accepted =
        rw
          (
            parsed,
            vacant,
            hashed,
            accepted,
            h.close_lem,
            h.commit_stores added accepted,
            h.add_user_lem,
            ready.no_users,
          )
          (refl, refl, refl)

  -- A registration with an address that a row has is refused, before any hashing.
  pub register_taken :
      email env.lower env.repr command.email ≡ ok address
      → any (with_email address.value) (h.contents w.session).users ≡ true
      → execute db env command w ≡ (err (domain_of email_already_exists), w)
  unfolding execute
  register_taken parsed taken = rw (parsed, h.select_users_lem, taken)
