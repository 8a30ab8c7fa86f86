-- ===== src/Database/TokenRepository.antt =====
-- app/infrastructure/database/repositories/refresh_token_repository.py.
pub mod Contract
pub mod Rows
pub mod Refines
use mathlib.Core.Option
use fastapi_starter.Prelude.{Bool, not, ◌&&◌, Option, none, some, ◌==◌}
use fastapi_starter.Domain.Errors.{invalid_token}
use fastapi_starter.Domain.Users.{Uuid, Instant, UserId}
use fastapi_starter.Domain.Tokens.{RefreshTokenRecord, is_set}
use fastapi_starter.Exec.{Exec, raise_domain, gets, ◌>>=◌}
use fastapi_starter.Ports.{World, on_session}
use fastapi_starter.Database.Models.{aware, RefreshTokenModel}
use fastapi_starter.Database.Session.{Session}
use fastapi_starter.Database.TokenMapper.{to_domain, to_model, apply_to_model}

-- The WHERE clauses of the two bulk updates, and their VALUES.
abbrev pub live_in_family : Uuid → RefreshTokenModel → Bool
live_in_family f m = m.family_id == f && not (is_set m.revoked_at)

abbrev pub live_of_user : Uuid → RefreshTokenModel → Bool
live_of_user u m = m.user_id == u && not (is_set m.revoked_at)

abbrev pub revoked_now : Instant → RefreshTokenModel → RefreshTokenModel
revoked_now at m = record m { revoked_at = some (aware at) }

module _ {S : Type 0} (db : Session S) where
  unfoldable pub add : RefreshTokenRecord → Exec (World S) (Unit {0})
  add r = on_session (db.add_token (to_model r))

  write_back : RefreshTokenRecord → Option RefreshTokenModel → Exec (World S) (Unit {0})
  write_back r none = raise_domain invalid_token
  write_back r (some m) = on_session (db.set_token (apply_to_model r m))

  unfoldable pub update : RefreshTokenRecord → Exec (World S) (Unit {0})
  unfolding write_back
  update r = do model ← gets (λ w. db.get_token r.jti w.session); write_back r model

  unfoldable pub get_by_jti : Uuid → Exec (World S) (Option RefreshTokenRecord)
  get_by_jti jti = gets (λ w. Option.map to_domain (db.get_token jti w.session))

  unfoldable pub revoke_family : Uuid → Instant → Exec (World S) (Unit {0})
  revoke_family family_id at =
      on_session (db.update_tokens (live_in_family family_id) (revoked_now at))

  unfoldable pub revoke_all_for_user : UserId → Instant → Exec (World S) (Unit {0})
  revoke_all_for_user user_id at =
      on_session (db.update_tokens (live_of_user user_id.value) (revoked_now at))
