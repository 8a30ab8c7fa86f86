-- ===== src/Tests/Overlap.antt =====
-- Refreshes that overlap with other requests, on the concrete rows.
use fastapi_starter.Prelude.{ℕ, ◌≡◌, ◌≤◌, ◌<◌, refl, some, List, [], ◌∷◌, count, arith}
use fastapi_starter.Domain.Errors.{ok}
use fastapi_starter.Ports.{refresh, TokenPayload}
use fastapi_starter.Database.Session.{update_where}
use fastapi_starter.Auth.Refresh.Exchange.{beginning, IsExchangeable}
use fastapi_starter.Database.Session.{integrity, failure}
use fastapi_starter.Database.Shared.{Met, refusal, update_row, insert_row, recording, apply_all}
use fastapi_starter.Database.TokenRepository.{live_in_family, revoked_now}
use fastapi_starter.Auth.Refresh.{execute}
use fastapi_starter.Auth.Refresh.Overlap.{
  after_sweep, unchanged, after_first, refresh_outlives_sweep, overlapping_refreshes_fork,
}
use fastapi_starter.Database.Shared.Revoking.{IsRevokedIn}
use fastapi_starter.Requests.{renew, logout}
use fastapi_starter.Requests.Interleaved.{Started, interleaved, interleaved-IsRevokedIn}
use fastapi_starter.Tests.{
  env, ann, bob, used, live, other_live, tables, tables-IsReady, ann_user, ann_loaded,
}

abbrev presented : TokenPayload
presented = record { subject = "|"; token_type = refresh; token_id = 4 }

exchangeable :
    (n : ℕ) → n < 500 → 10 ≤ n → IsExchangeable env tables n "live" presented live ann ann_user
exchangeable n early late = record {
  ready = tables-IsReady;
  decoded = refl;
  kind = refl;
  found = refl;
  live = refl;
  fresh = ground arith;
  parsed = refl;
  known = refl;
  loaded = ann_loaded;
  active = refl;
  unused = ground arith;
}

abbrev swept : Met
swept = after_sweep (ann ∷ bob ∷ []) (used ∷ live ∷ other_live ∷ []) 0 12

refresh_outlives_sweep_example :
    ((execute recording env "live" (beginning tables swept 10)).0
      ≡ ok (record { access_token = "access"; refresh_token = "refresh" }))
    × (count (live_in_family 0) (
          apply_all
            (execute recording env "live" (beginning tables swept 10)).1.session.written
            swept.tokens)
        ≡ 1)
refresh_outlives_sweep_example =
    refresh_outlives_sweep env tables "live" presented live ann ann_user 10
      (exchangeable 10 (ground arith) (ground arith)) (ann ∷ bob ∷ [])
      (used ∷ live ∷ other_live ∷ []) 12 tables-IsReady.consistent refl refl refl

abbrev both_read : Met
both_read = unchanged env tables "live" presented live ann ann_user

abbrev second_meets : Met
second_meets = after_first env tables "live" presented live ann ann_user 10

overlapping_refreshes_fork_example :
    ((execute recording env "live" (beginning tables both_read 10)).0
      ≡ ok (record { access_token = "access"; refresh_token = "refresh" }))
    × ((execute recording env "live" (beginning tables second_meets 20)).0
        ≡ ok (record { access_token = "access"; refresh_token = "refresh" }))
    × (2
        ≤ count (live_in_family 0) (
            apply_all
              (execute recording env "live" (beginning tables second_meets 20)).1.session.written
              second_meets.tokens))
overlapping_refreshes_fork_example =
    overlapping_refreshes_fork env tables "live" presented live ann ann_user 10 20
      (exchangeable 10 (ground arith) (ground arith))
      (exchangeable 20 (ground arith) (ground arith)) refl

-- A commit with an id that is in use, and one whose row is gone.
used_id :
    refusal both_read (update_row (revoked_now 12 live) ∷ insert_row live ∷ [])
    ≡ some (integrity "constraint violated")
unfolding refusal apply_all
used_id = refl

row_gone :
    refusal (record both_read { tokens = [] }) (update_row (revoked_now 12 live) ∷ [])
    ≡ some (failure "StaleDataError")
unfolding refusal
row_gone = refl

-- A refresh and a logout that began before the family was swept commit after the sweep.
abbrev late_requests : List Started
late_requests =
    record { request = renew "live"; seen = tables; calls = 10; reach = []; users = ann ∷ bob ∷ [] }
    ∷ record {
      request = logout "live";
      seen = tables;
      calls = 20;
      reach = used ∷ live ∷ other_live ∷ [];
      users = ann ∷ bob ∷ [];
    }
    ∷ []

interleaved-IsRevokedIn_example : IsRevokedIn 4 (
    interleaved env late_requests
      (update_where (live_in_family 0) (revoked_now 12) (used ∷ live ∷ other_live ∷ [])))
interleaved-IsRevokedIn_example =
    interleaved-IsRevokedIn env late_requests 4
      (update_where (live_in_family 0) (revoked_now 12) (used ∷ live ∷ other_live ∷ []))
      (revoked_now 12 live, refl, refl)
