-- ===== src/Users/CreateUser.antt =====
-- app/application/users/commands/create_user.py.
pub mod Refines
pub mod Revoking
pub mod Effects
pub mod Race
pub mod Raises
use fastapi_starter.Prelude.{String, Bool, List, ◌++◌}
use fastapi_starter.Domain.Errors.{email_already_exists}
use fastapi_starter.Domain.Email.{Email, email, hashed_password}
use fastapi_starter.Domain.Users.{Uuid, Instant, DomainEvent, create, pull_events}
use fastapi_starter.Exec.{Exec, pure, raise_domain, lift, modify, branch, ◌>>=◌, ◌>>◌}
use fastapi_starter.Messaging.{dispatch, event_dispatcher}
use fastapi_starter.Ports.{Env, World, ask, ask_hasher}
use fastapi_starter.Database.Models.{Datetime, aware}
use fastapi_starter.Database.Session.{Session}
use fastapi_starter.Database.UserRepository
use fastapi_starter.Database.UnitOfWork

pub record CreateUserCommand : Type 0 where
  pub email : String
  pub password : String

-- app/application/users/dto.py
pub record UserView : Type 0 where
  pub id : Uuid
  pub email : String
  pub is_active : Bool
  pub created_at : Datetime

module _ {S : Type 0} (db : Session S) (env : Env) where
  register : CreateUserCommand → Email → Exec (World S) UserView
  unfolding ask ask_hasher create pull_events hashed_password UserRepository.add UnitOfWork.commit
      dispatch event_dispatcher
  register command address = do
    user_id ← ask env.uuid4
    hash ← ask_hasher (λ n. env.hash n command.password)
    password ← lift (hashed_password hash)
    now ← ask env.now
    let user = create (record { value = user_id }) address password now
    UserRepository.add db env user
    UnitOfWork.commit db
    dispatch event_dispatcher (pull_events user).0
    pure (record {
      id = user.id.value;
      email = user.email.value;
      is_active = user.is_active;
      created_at = aware user.created_at;
    })

  unfoldable pub execute : CreateUserCommand → Exec (World S) UserView
  unfolding register UserRepository.exists_by_email
  execute command = do
    address ← lift (email env.lower env.repr command.email)
    taken ← UserRepository.exists_by_email db env address
    branch taken (raise_domain email_already_exists) (register command address)
