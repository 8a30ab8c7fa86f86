-- ===== src/Database/TokenMapper.antt =====
-- app/infrastructure/database/mappers/refresh_token_mapper.py.
use mathlib.Core.Option
use fastapi_starter.Domain.Tokens.{RefreshTokenRecord}
use fastapi_starter.Database.Models.{aware, RefreshTokenModel}
use fastapi_starter.Database.UserMapper.{as_utc}

unfoldable pub to_domain : RefreshTokenModel → RefreshTokenRecord
to_domain m = record {
  jti = m.jti;
  user_id = record { value = m.user_id };
  family_id = m.family_id;
  expires_at = as_utc m.expires_at;
  revoked_at = Option.map as_utc m.revoked_at;
}

unfoldable pub to_model : RefreshTokenRecord → RefreshTokenModel
to_model r = record {
  jti = r.jti;
  user_id = r.user_id.value;
  family_id = r.family_id;
  expires_at = aware r.expires_at;
  revoked_at = Option.map aware r.revoked_at;
}

unfoldable pub apply_to_model : RefreshTokenRecord → RefreshTokenModel → RefreshTokenModel
apply_to_model r m = record m { revoked_at = Option.map aware r.revoked_at }
