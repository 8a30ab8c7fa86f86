-- ===== src/Database/Models.antt =====
-- app/infrastructure/database/models and the two migrations: the rows of the tables. The columns
-- that the database fills itself (`updated_at`, `created_at` of a token) are read by no code and
-- left out.
use fastapi_starter.Prelude.{String, Bool, Option}
use fastapi_starter.Domain.Users.{Uuid, Instant}

-- A datetime as a driver returns it: SQLite forgets the zone.
pub data Datetime : Type 0 where
  naive aware : Instant → Datetime

pub record UserModel : Type 0 where
  pub id : Uuid
  pub email : String
  pub hashed_password : String
  pub is_active : Bool
  pub created_at : Datetime

pub record RefreshTokenModel : Type 0 where
  pub jti : Uuid
  pub user_id : Uuid
  pub family_id : Uuid
  pub expires_at : Datetime
  pub revoked_at : Option Datetime
