-- ===== src/Domain/Tokens.antt =====
-- app/domain/auth/entities.py: the server-side record of an issued refresh token.
use fastapi_starter.Prelude.{Bool, true, false, Option, none, some, if◌then◌else◌}
use fastapi_starter.Domain.Users.{Uuid, Instant, UserId}

pub record RefreshTokenRecord : Type 0 where
  pub jti : Uuid
  pub user_id : UserId
  pub family_id : Uuid
  pub expires_at : Instant
  pub revoked_at : Option Instant

-- `revoked_at is not None`
abbrev pub is_set {ℓ} : {A : Type ℓ} → Option A → Bool
is_set none = false
is_set (some a) = true

unfoldable pub is_revoked : RefreshTokenRecord → Bool
is_revoked r = is_set r.revoked_at

unfoldable pub revoke : Instant → RefreshTokenRecord → RefreshTokenRecord
revoke now r = if is_set r.revoked_at then r else record r { revoked_at = some now }
