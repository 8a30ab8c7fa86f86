-- ===== src/RateLimit/Window.antt =====
-- How many requests a window admits.
use Prim.Native.String.{◌++◌}
use fastapi_starter.Prelude.{
  ℕ, zero, suc, ◌+◌, ◌-◌, String, ◌≡◌, ◌≤◌, ◌<◌, ◌∙◌, refl, max, ◌≢◌, true, false, min, ltb, ◌==◌,
  if◌then◌else◌, arith,
}
use fastapi_starter.RateLimit.{Redis, seconds, check}

-- What Redis documents of one counter, seen as its value (0 for no key) and its TTL.
pub record IsRedis {R : Type 0} (redis : Redis R) : Type 0 where
  pub value : String → R → ℕ
  pub incr_reply : (k : String) (r : R) → (redis.incr k r).0 ≡ value k r + 1
  pub incr_value : (k : String) (r : R) → value k (redis.incr k r).1 ≡ value k r + 1
  pub incr_ttl :
      (k : String) (r : R) → value k r ≢ 0 → redis.ttl k (redis.incr k r).1 ≡ redis.ttl k r
  -- A timeout that is not positive would delete the key.
  pub expire_value : (k : String) (n : ℕ) (r : R) → 0 < n → value k (redis.expire k n r) ≡ value k r
  pub expire_ttl :
      (k : String) (n : ℕ) (r : R)
      → 0 < n
      → value k r ≢ 0
      → redis.ttl k (redis.expire k n r) ≡ seconds n

module _ {R : Type 0} (redis : Redis R) (h : IsRedis redis) (key : String) (limit window : ℕ) where
  abbrev pub redis_key : String
  redis_key = "ratelimit:" ++ key

  pub check_allowed :
      (r : R)
      → (check redis key limit window r).0.allowed
        ≡ (if ltb limit (h.value redis_key r + 1) then false else true)
  unfolding check
  check_allowed r = ground (arith, h.incr_reply redis_key r)

  -- `n` checks in a row, with how many of them were allowed.
  unfoldable pub burst : ℕ → R → ℕ × R
  burst zero r = (0, r)
  burst (suc n) r =
      let (decision, r') = check redis key limit window r in
      let (allowed, last) = burst n r' in (if decision.allowed then allowed + 1 else allowed, last)

  -- A check of a running window whose requests are spent is refused, and names the seconds that the
  -- window has left, at least one; neither the window nor the limit moves.
  pub check_retry_after :
      (r : R) (left : ℕ)
      → h.value redis_key r ≢ 0
      → limit ≤ h.value redis_key r
      → redis.ttl redis_key r ≡ seconds left
      → ((check redis key limit window r).0
          ≡ record { allowed = false; retry_after_seconds = max left 1 })
        × (redis.ttl redis_key (check redis key limit window r).1 ≡ seconds left)
  unfolding check
  check_retry_after r left running spent ends =
      let reply = h.incr_reply redis_key r in
      let kept = h.incr_ttl redis_key r running ∙ ends in
      let later : (h.value redis_key r + 1 == 1) ≡ false = ground arith in
      let over : ltb limit (h.value redis_key r + 1) ≡ true = ground arith in
      rw (reply, later, over, kept) (refl, refl)

  module _ (lasts : 0 < window) where
    -- A check counts once.
    pub check_counts :
        (r : R) → h.value redis_key (check redis key limit window r).1 ≡ h.value redis_key r + 1
    unfolding check
    check_counts r = ground (
      arith,
      h.incr_reply redis_key r,
      h.incr_value redis_key r,
      h.expire_value redis_key window (redis.incr redis_key r).1 lasts,
    )

    burst_counts : (n : ℕ) (r : R) → h.value redis_key (burst n r).1 ≡ h.value redis_key r + n
    unfolding burst
    burst_counts zero r = omega arith
    burst_counts (suc n) r =
        omega (arith, burst_counts n (check redis key limit window r).1, check_counts r)

    -- Of `n` checks of a key within its window, exactly as many are allowed as the limit has left, if
    -- the window lasts at least a second.
    pub burst_allows : (n : ℕ) (r : R) → (burst n r).0 ≡ min n (limit - h.value redis_key r)
    unfolding burst
    burst_allows zero r = omega arith
    burst_allows (suc n) r =
        ground (
          arith,
          burst_allows n (check redis key limit window r).1,
          check_counts r,
          check_allowed r,
        )

    -- The first check of a window sets its expiry; later ones leave it, so the window is fixed, if it
    -- lasts at least a second.
    pub check_fixes_window :
        (r : R)
        → redis.ttl redis_key (check redis key limit window r).1
          ≡ (if h.value redis_key r == 0 then seconds window else redis.ttl redis_key r)
    unfolding check
    check_fixes_window r = ground (
      arith,
      h.incr_reply redis_key r,
      h.incr_value redis_key r,
      h.incr_ttl redis_key r,
      h.expire_ttl redis_key window (redis.incr redis_key r).1 lasts,
    )
