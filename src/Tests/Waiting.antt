-- ===== src/Tests/Waiting.antt =====
-- Runs of the rate limiter with waits between the checks.
use fastapi_starter.Prelude.{
  ℕ, ◌≡◌, ◌<◌, ◌∙◌, ap, refl, String, true, false, [], ◌∷◌, ltb, if◌then◌else◌, arith,
}
use fastapi_starter.RateLimit.{Ttl, seconds, no_expiry, no_key, check}
use fastapi_starter.RateLimit.Expiry.{IsTimed, waiting_admits, visits, lost_expiry_blocks}
use fastapi_starter.Tests.Tokens.{counters, counters-IsRedis, spent}

-- Each key whose time is over goes; of the others only the value is of use.
abbrev after_wait : ℕ → ℕ × Ttl → ℕ × Ttl
after_wait d (n, seconds left) = if ltb left d then (0, no_key) else (n, seconds left)
after_wait d (n, no_expiry) = (n, no_expiry)
after_wait d (n, no_key) = (n, no_key)

abbrev wait : ℕ → (String → ℕ × Ttl) → String → ℕ × Ttl
wait d r k = after_wait d (r k)

after_wait_gone :
    (d left : ℕ) (c : ℕ × Ttl) → c.1 ≡ seconds left → left < d → (after_wait d c).0 ≡ 0
after_wait_gone d left (n, seconds m) e late = ground arith
after_wait_gone d left (n, no_expiry) e late = cc
after_wait_gone d left (n, no_key) e late = cc

after_wait_kept : (d : ℕ) (c : ℕ × Ttl) → c.1 ≡ no_expiry → after_wait d c ≡ c
after_wait_kept d (n, seconds m) e = cc
after_wait_kept d (n, no_expiry) e = refl
after_wait_kept d (n, no_key) e = refl

counters-IsTimed : IsTimed counters counters-IsRedis wait
counters-IsTimed = record {
  gone = λ k d n r e late. after_wait_gone d n (r k) e late;
  kept_value = λ k d r e. ap (λ c. c.0) (after_wait_kept d (r k) e);
  kept_ttl = λ k d r e. ap (λ c. c.1) (after_wait_kept d (r k) e) ∙ e;
}

waiting_admits_example :
    ((check counters "login" 2 60 spent).0.allowed ≡ false)
    × ((check counters "login" 2 60 (wait 31 (check counters "login" 2 60 spent).1)).0.allowed
        ≡ true)
unfolding check
waiting_admits_example =
    waiting_admits counters counters-IsRedis wait counters-IsTimed "login" 2 60 (ground arith) spent
      30 31 (ground arith) (λ e. ground arith) (ground arith) refl (ground arith)

-- A counter at the limit that lost its expiry.
abbrev stuck : String → ℕ × Ttl
stuck k = (2, no_expiry)

lost_expiry_blocks_example : visits counters wait "login" 2 60 (60 ∷ 3600 ∷ 86_400 ∷ []) stuck ≡ 0
lost_expiry_blocks_example =
    lost_expiry_blocks counters counters-IsRedis wait counters-IsTimed "login" 2 60 (ground arith)
      (60 ∷ 3600 ∷ 86_400 ∷ []) stuck (λ e. ground arith) (ground arith) refl
