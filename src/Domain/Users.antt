-- ===== src/Domain/Users.antt =====
-- app/domain/users/entities.py, events.py, the `UserId` of value_objects.py, and the event list of
-- app/domain/shared/entity.py.
use fastapi_starter.Prelude.{
  ℕ, String, Bool, true, false, Option, none, some, List, [], ◌∷◌, ◌++◌, ◌==◌,
}
use fastapi_starter.Domain.Errors.{Result, ok, err, domain, validation_error}
use fastapi_starter.Domain.Email.{Email, HashedPassword}

-- A UUID is its 128-bit integer, by which Python compares and orders UUIDs.
abbrev pub Uuid : Type 0
Uuid = ℕ

-- An aware UTC datetime is its distance from the epoch, in microseconds.
abbrev pub Instant : Type 0
Instant = ℕ

pub record UserId : Type 0 where
  pub value : Uuid

-- `UserId.from_str`, with the parser of `UUID(raw)` given; `none` is its ValueError.
unfoldable pub from_str : (String → Option Uuid) → String → Result UserId
from_str parse raw = elim (parse raw) [
  | none ↦ err (domain validation_error "Invalid user id.")
  | some u ↦ ok (record { value = u })
]

pub record UserRegistered : Type 0 where
  pub user_id : Uuid
  pub email : String
  pub occurred_at : Instant

-- The subclasses of DomainEvent.
pub data DomainEvent : Type 0 where
  user_registered : UserRegistered → DomainEvent

pub record User : Type 0 where
  pub id : UserId
  pub email : Email
  pub hashed_password : HashedPassword
  pub is_active : Bool
  pub created_at : Instant
  pub events : List DomainEvent

unfoldable pub identity : User → UserId
identity u = u.id

-- `Entity.__eq__` between two users.
unfoldable pub same_entity : User → User → Bool
unfolding identity
same_entity u v = (identity u).value == (identity v).value

unfoldable pub record_event : DomainEvent → User → User
record_event e u = record u { events = u.events ++ e ∷ [] }

unfoldable pub pull_events : User → List DomainEvent × User
pull_events u = (u.events, record u { events = [] })

unfoldable pub create : UserId → Email → HashedPassword → Instant → User
unfolding record_event
create user_id email hashed_password created_at =
    let user : User = record {
      id = user_id;
      email = email;
      hashed_password = hashed_password;
      is_active = true;
      created_at = created_at;
      events = [];
    } in
    record_event
      (user_registered
        (record { user_id = user_id.value; email = email.value; occurred_at = created_at }))
      user

unfoldable pub deactivate : User → User
deactivate u = record u { is_active = false }

unfoldable pub change_password : HashedPassword → User → User
change_password hashed_password u = record u { hashed_password = hashed_password }
