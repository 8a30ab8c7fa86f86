-- ===== src/RateLimit.antt =====
-- app/infrastructure/cache/rate_limiter.py over a Redis interface, and the dependency of
-- app/api/dependencies/rate_limit.py.
pub mod Window
pub mod Expiry
use Prim.Native.String.{◌++◌}
use fastapi_starter.Prelude.{
  ℕ, zero, suc, ◌+◌, String, ◌≡◌, ◌≢◌, Bool, true, false, Option, none, some, List, [], ◌∷◌, max,
  ltb, ◌==◌, if◌then◌else◌,
}
use fastapi_starter.Domain.Errors.{Result, ok, err, http}

-- The reply to TTL: seconds left, or -1 for a key without expiry, or -2 for no key.
pub data Ttl : Type 0 where
  seconds : ℕ → Ttl
  no_expiry no_key : Ttl

-- Redis: `incr` creates a missing key with the value 1 and no expiry; it gives the new value.
pub record Redis (R : Type 0) : Type 0 where
  pub incr : String → R → ℕ × R
  pub expire : String → ℕ → R → R
  pub ttl : String → R → Ttl

pub record RateLimitDecision : Type 0 where
  pub allowed : Bool
  pub retry_after_seconds : ℕ

-- `max(ttl, 1)`
abbrev pub at_least_one : Ttl → ℕ
at_least_one (seconds n) = max n 1
at_least_one no_expiry = 1
at_least_one no_key = 1

module _ {R : Type 0} (redis : Redis R) where
  started : String → ℕ → ℕ → R → R
  started redis_key window_seconds count r =
      if count == 1 then redis.expire redis_key window_seconds r else r

  decided : String → ℕ → ℕ → R → RateLimitDecision
  decided redis_key limit count r =
      if ltb limit count
      then record { allowed = false; retry_after_seconds = at_least_one (redis.ttl redis_key r) }
      else record { allowed = true; retry_after_seconds = 0 }

  unfoldable pub check : String → ℕ → ℕ → R → RateLimitDecision × R
  unfolding started decided
  check key limit window_seconds r =
      let redis_key = "ratelimit:" ++ key in
      let (count, r') = redis.incr redis_key r in
      let r'' = started redis_key window_seconds count r' in
      (decided redis_key limit count r'', r'')

-- `str` of an integer is given.
pub record RateLimitSettings : Type 0 where
  pub auth_requests : ℕ
  pub auth_window_seconds : ℕ

module _ {R : Type 0} (redis : Redis R) (show : ℕ → String) where
  abbrev pub rate_key : String → Option String → String
  rate_key path (some host) = path ++ (":" ++ host)
  rate_key path none = path ++ (":" ++ "unknown")

  admitted : RateLimitDecision → Result (Unit {0})
  admitted d =
      if d.allowed
      then ok tt
      else err (
          http 429 "Too many requests; try again later."
            (("Retry-After", show d.retry_after_seconds) ∷ []))

  unfoldable pub rate_limit_auth :
      RateLimitSettings → String → Option String → R → Result (Unit {0}) × R
  unfolding check admitted
  rate_limit_auth settings path client r =
      let (decision, r') =
        check redis (rate_key path client) settings.auth_requests settings.auth_window_seconds r in
      (admitted decision, r')
