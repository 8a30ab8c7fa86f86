-- ===== src/RateLimit/Expiry.antt =====
-- What waiting does for a client that was refused.
use fastapi_starter.Prelude.{
  ℕ, ◌+◌, ◌≤◌, ◌<◌, String, ◌≡◌, ◌≢◌, refl, ◌∙◌, true, false, List, [], ◌∷◌, max, ltb, ◌==◌, arith,
  if◌then◌else◌,
}
use fastapi_starter.RateLimit.{Redis, seconds, no_expiry, check}
use fastapi_starter.RateLimit.Window.{
  IsRedis, redis_key, check_counts, check_allowed, check_retry_after, check_fixes_window,
}

-- Redis and the passing of time: a key is gone once more seconds have passed than it had left, and a
-- key without expiry stays.
pub record IsTimed {R : Type 0} (redis : Redis R) (h : IsRedis redis) (wait : ℕ → R → R)
    : Type 0 where
  pub gone :
      (k : String) (d n : ℕ) (r : R) → redis.ttl k r ≡ seconds n → n < d → h.value k (wait d r) ≡ 0
  pub kept_value :
      (k : String) (d : ℕ) (r : R) → redis.ttl k r ≡ no_expiry → h.value k (wait d r) ≡ h.value k r
  pub kept_ttl :
      (k : String) (d : ℕ) (r : R) → redis.ttl k r ≡ no_expiry → redis.ttl k (wait d r) ≡ no_expiry

module _ {R : Type 0} (redis : Redis R) (wait : ℕ → R → R) (key : String) (limit window : ℕ) where
  -- A client that waits some seconds before each check: how many of its checks are allowed.
  unfoldable pub visits : List ℕ → R → ℕ
  visits [] r = 0
  visits (d ∷ ds) r =
      let (decision, r') = check redis key limit window (wait d r) in
      let rest = visits ds r' in if decision.allowed then rest + 1 else rest

module _ {R : Type 0} (redis : Redis R) (h : IsRedis redis) (wait : ℕ → R → R)
    (timed : IsTimed redis h wait) (key : String) (limit window : ℕ) (lasts : 0 < window) where
  abbrev k : String
  k = redis_key redis h key limit window

  -- A client that is refused in a running window, and comes back more seconds later than it was told
  -- to wait, is admitted, if the limit is not 0.
  pub waiting_admits :
      (r : R) (left d : ℕ)
      → 0 < limit
      → h.value k r ≢ 0
      → limit ≤ h.value k r
      → redis.ttl k r ≡ seconds left
      → (check redis key limit window r).0.retry_after_seconds < d
      → ((check redis key limit window r).0.allowed ≡ false)
        × ((check redis key limit window (wait d (check redis key limit window r).1)).0.allowed
            ≡ true)
  waiting_admits r left d some_limit running spent ends patient =
      let (refused, ends') = check_retry_after redis h key limit window r left running spent ends in
      let after = (check redis key limit window r).1 in
      let told : max left 1 < d = rw refused at patient in
      let empty = timed.gone k d left after ends' (omega arith) in
      let fits : ltb limit (h.value k (wait d after) + 1) ≡ false = rw empty (ground arith) in
      (rw refused refl, check_allowed redis h key limit window (wait d after) ∙ rw fits refl)

  -- A counter that is past the limit and has no expiry, as one is left by a process that stops
  -- between INCR and EXPIRE, refuses every later check, however long the client waits between them.
  pub lost_expiry_blocks :
      (ds : List ℕ) (r : R)
      → h.value k r ≢ 0
      → limit ≤ h.value k r
      → redis.ttl k r ≡ no_expiry
      → visits redis wait key limit window ds r ≡ 0
  unfolding visits
  lost_expiry_blocks [] r running spent forever = refl
  lost_expiry_blocks (d ∷ ds) r running spent forever =
      let before = wait d r in
      let value = timed.kept_value k d r forever in
      let stays = timed.kept_ttl k d r forever in
      let over : ltb limit (h.value k before + 1) ≡ true = ground arith in
      let refused : (check redis key limit window before).0.allowed ≡ false =
        (let answer = check_allowed redis h key limit window before in rw answer (rw over refl)) in
      let counted = check_counts redis h key limit window lasts before in
      let later : (h.value k before == 0) ≡ false = ground arith in
      let ttl : redis.ttl k (check redis key limit window before).1 ≡ no_expiry =
        (let fixed = check_fixes_window redis h key limit window lasts before in
          rw fixed (rw later stays)) in
      let rest =
        lost_expiry_blocks ds (check redis key limit window before).1 (λ e. omega arith)
          (omega arith) ttl in
      rw (refused, rest) refl
