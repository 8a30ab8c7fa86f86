-- ===== src/Tests/Tokens.antt =====
-- Runs of the JWT service and the rate limiter over concrete implementations.
use fastapi_starter.Prelude.{
  ℕ, ◌+◌, ◌*◌, ◌≡◌, refl, String, true, [], ltb, ◌==◌, if◌then◌else◌, str_eq, str_eq_iff, arith,
}
use fastapi_starter.Domain.Users.{Uuid}
use fastapi_starter.Ports.{refresh}
use fastapi_starter.Security.{
  PyJwt, JwtSettings, Claims, claims, expired_signature, py_jwt_error, decode,
}
use fastapi_starter.Security.Tokens.{issued_claims, refresh_lifetime}
use fastapi_starter.RateLimit.{Redis, Ttl, seconds, no_expiry, no_key}
use fastapi_starter.RateLimit.Window.{IsRedis, burst, burst_allows}
use fastapi_starter.Tests.{show_uuid, parse_uuid, parse_uuid-show_uuid}

abbrev pub settings : JwtSettings
settings = record {
  secret = "0123456789abcdef0123456789abcdef";
  algorithm = "HS256";
  access_token_expire_minutes = 15;
  refresh_token_expire_days = 30;
  issuer = "fastapi-starter";
  audience = "fastapi-starter";
}

abbrev clock : ℕ → ℕ
clock n = n * 1_000_000

abbrev draw : ℕ → Uuid
draw n = n

-- A library that knows one token, with the given claims, until a given instant.
abbrev one_token : Claims → ℕ → PyJwt
one_token raw until = record {
  encode = λ c secret algorithm. "token";
  decode = λ t token secret algorithms issuer audience required.
      if str_eq token "token"
      then (if ltb t until then claims raw else expired_signature)
      else py_jwt_error;
}

abbrev unused_jwt : PyJwt
unused_jwt = one_token [] 0

abbrev refresh_claims : Claims
refresh_claims =
    issued_claims unused_jwt settings show_uuid parse_uuid draw clock parse_uuid-show_uuid 7 "|"
      refresh 3
      (refresh_lifetime unused_jwt settings show_uuid parse_uuid draw clock parse_uuid-show_uuid)

abbrev refresh_jwt : PyJwt
refresh_jwt = one_token refresh_claims 2_592_007_000_000

-- Counters by key.
abbrev pub counters : Redis (String → ℕ × Ttl)
counters = record {
  incr = λ k r. (
    (r k).0 + 1,
    λ j. if str_eq j k then ((r k).0 + 1, if (r k).0 == 0 then no_expiry else (r k).1) else r j,
  );
  expire =
      λ k n r j. if str_eq j k then ((r k).0, if (r k).0 == 0 then no_key else seconds n) else r j;
  ttl = λ k r. (r k).1;
}

pub same_key : (k : String) → str_eq k k ≡ true
same_key k = (str_eq_iff k k).1 refl

abbrev pub counters-IsRedis : IsRedis counters
counters-IsRedis = record {
  value = λ k r. (r k).0;
  incr_reply = λ k r. refl;
  incr_value = λ k r. rw (same_key k) refl;
  incr_ttl = λ k r some_value. ground (arith, same_key k);
  expire_value = λ k n r lasts. rw (same_key k) refl;
  expire_ttl = λ k n r lasts some_value. ground (arith, same_key k);
}

abbrev fresh : String → ℕ × Ttl
fresh k = (0, no_key)

burst_allows_example : (burst counters counters-IsRedis "login" 2 60 5 fresh).0 ≡ 2
burst_allows_example = burst_allows counters counters-IsRedis "login" 2 60 (ground arith) 5 fresh

-- A counter whose two requests are spent, with half a minute left.
abbrev pub spent : String → ℕ × Ttl
spent k = (2, seconds 30)
