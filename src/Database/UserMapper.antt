-- ===== src/Database/UserMapper.antt =====
-- app/infrastructure/database/mappers/tz.py and user_mapper.py.
pub mod RoundTrip
use fastapi_starter.Prelude.{String, []}
use fastapi_starter.Domain.Errors.{Result, ok, ◌>>=◌}
use fastapi_starter.Domain.Email.{email, hashed_password}
use fastapi_starter.Domain.Users.{Instant, User}
use fastapi_starter.Database.Models.{Datetime, naive, aware, UserModel}

abbrev pub as_utc : Datetime → Instant
as_utc (naive t) = t
as_utc (aware t) = t

unfoldable pub to_domain : (String → String) → (String → String) → UserModel → Result User
to_domain lower repr m = do
  e ← email lower repr m.email
  p ← hashed_password m.hashed_password
  ok (record {
    id = record { value = m.id };
    email = e;
    hashed_password = p;
    is_active = m.is_active;
    created_at = as_utc m.created_at;
    events = [];
  })

unfoldable pub to_model : User → UserModel
to_model u = record {
  id = u.id.value;
  email = u.email.value;
  hashed_password = u.hashed_password.value;
  is_active = u.is_active;
  created_at = aware u.created_at;
}

unfoldable pub apply_to_model : User → UserModel → UserModel
apply_to_model u m = record m {
  email = u.email.value;
  hashed_password = u.hashed_password.value;
  is_active = u.is_active;
}
