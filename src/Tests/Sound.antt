-- ===== src/Tests/Sound.antt =====
-- A login and a refresh that succeed, and what the client must have shown.
use fastapi_starter.Prelude.{◌+◌, ◌<◌, ◌≡◌, refl, true, false, some, arith}
use fastapi_starter.Domain.Errors.{ok}
use fastapi_starter.Domain.Email.{Email, email, hashed_password}
use fastapi_starter.Domain.Users.{User}
use fastapi_starter.Domain.Tokens.{RefreshTokenRecord, is_revoked}
use fastapi_starter.Ports.{TokenPayload, refresh}
use fastapi_starter.Database.Memory.{memory, memory-IsSession}
use fastapi_starter.Database.UserMapper
use fastapi_starter.Database.UserRepository.{get_by_email}
use fastapi_starter.Database.TokenRepository.{get_by_jti}
use fastapi_starter.Auth.Login
use fastapi_starter.Auth.Login.{TokenPair}
use fastapi_starter.Auth.Login.Sound.{login_sound}
use fastapi_starter.Auth.Login.Success.{login_starts_family}
use fastapi_starter.Auth.Refresh
use fastapi_starter.Auth.Refresh.Rotation.{refresh_rotates}
use fastapi_starter.Auth.Refresh.Sound.{IsOfActiveUser, refresh_sound}
use fastapi_starter.Tests.{env, start, live, ann, ann_user, ann_loaded, tables-IsReady}
use fastapi_starter.Tests.Accounts.{right}

abbrev tokens_sent : TokenPair
tokens_sent = record { access_token = "access"; refresh_token = "refresh" }

logs_in : (Login.execute memory env right start).0 ≡ ok tokens_sent
unfolding memory memory-IsSession email get_by_email UserMapper.to_domain hashed_password
logs_in =
    (login_starts_family memory env start right (record { value = "ann@x.org" }) ann_user
      memory-IsSession tables-IsReady refl refl refl refl refl).0

login_sound_example :
    (address : Email) × (email env.lower env.repr right.email ≡ ok address)
    × (user : User) × ((get_by_email memory env address start).0 ≡ ok (some user))
    × (user.is_active ≡ true)
    × (env.verify right.password user.hashed_password.value ≡ true)
login_sound_example = login_sound memory env right start tokens_sent logs_in

renews : (Refresh.execute memory env "live" start).0 ≡ ok tokens_sent
unfolding memory-IsSession
renews =
    (refresh_rotates memory env start "live"
      (record { subject = "|"; token_type = refresh; token_id = 4 }) live ann ann_user
      memory-IsSession tables-IsReady refl refl refl refl (ground arith) refl refl ann_loaded refl
      refl).0

refresh_sound_example :
    (payload : TokenPayload) × (env.tokens.decode start.calls "live" ≡ ok payload)
    × (payload.token_type ≡ refresh)
    × (r : RefreshTokenRecord) × ((get_by_jti memory payload.token_id start).0 ≡ ok (some r))
    × (is_revoked r ≡ false)
    × (env.now (start.calls + 1) < r.expires_at)
    × IsOfActiveUser memory env payload start
refresh_sound_example = refresh_sound memory env "live" start tokens_sent renews
