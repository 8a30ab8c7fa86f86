-- ===== src/Database/UserMapper/RoundTrip.antt =====
-- A user that is stored is loaded back as it was.
use fastapi_starter.Prelude.{String, ◌≡◌, refl}
use fastapi_starter.Domain.Errors.{ok}
use fastapi_starter.Domain.Email.{email, hashed_password}
use fastapi_starter.Domain.Users.{User, pull_events}
use fastapi_starter.Database.Models.{UserModel}
use fastapi_starter.Database.UserMapper.{to_domain, to_model, apply_to_model}

-- A user whose address and hash are accepted as they stand is loaded back from its own row, and from
-- a row of the same id and creation time that it was written over, with its events pulled.
pub to_domain-to_model :
    (lower repr : String → String) (user : User) (row : UserModel)
    → email lower repr user.email.value ≡ ok user.email
    → hashed_password user.hashed_password.value ≡ ok user.hashed_password
    → row.id ≡ user.id.value
    → row.created_at ≡ (to_model user).created_at
    → (to_domain lower repr (to_model user) ≡ ok (pull_events user).1)
      × (to_domain lower repr (apply_to_model user row) ≡ ok (pull_events user).1)
unfolding to_domain to_model apply_to_model pull_events
to_domain-to_model lower repr user row address hash same_id same_time =
    (rw (address, hash) refl, rw (address, hash, same_id, same_time) refl)
