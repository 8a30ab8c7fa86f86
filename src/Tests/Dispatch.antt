-- ===== src/Tests/Dispatch.antt =====
-- Runs of the dispatcher and of the endpoints behind the current user.
use fastapi_starter.Prelude.{ℕ, ◌+◌, ◌≡◌, refl, [], ◌∷◌, none, true}
use fastapi_starter.Domain.Errors.{ok, err, domain_of, invalid_token}
use fastapi_starter.Domain.Users.{DomainEvent, user_registered}
use fastapi_starter.Messaging.{Subscriber, dispatch}
use fastapi_starter.Messaging.Order.{dispatch_stops}
use fastapi_starter.Auth.CurrentUser.{get_current_user}
use fastapi_starter.Database.Memory.{memory}
use fastapi_starter.Api.Endpoints.{
  raised, ChangePasswordRequest, change_password, read_me, get_user, list_users,
}
use fastapi_starter.Api.Endpoints.Guarded.{asked, guarded_endpoints_refuse}
use fastapi_starter.Tests.{env}
use fastapi_starter.Tests.Tokens.{counters}
use fastapi_starter.Tests.Interface.{codec, busy, show_text, limit}

-- A handler that counts its calls, and one that raises.
abbrev counting : Subscriber ℕ
counting event n = (ok tt, n + 1)

abbrev raising : Subscriber ℕ
raising event n = (err (domain_of invalid_token), n + 10)

abbrev event : DomainEvent
event = user_registered (record { user_id = 1; email = "ann@x.org"; occurred_at = 5 })

dispatch_stops_example :
    dispatch (counting ∷ raising ∷ counting ∷ []) (event ∷ event ∷ []) 0
    ≡ (err (domain_of invalid_token), 11)
dispatch_stops_example =
    dispatch_stops (counting ∷ raising ∷ counting ∷ []) (event ∷ event ∷ []) (counting event ∷ [])
      (counting event ∷ counting event ∷ raising event ∷ counting event ∷ []) (raising event) 0 1 11
      (domain_of invalid_token) refl refl refl

abbrev body : ChangePasswordRequest
body = record { current_password = "secret"; new_password = "longer secret" }

guarded_endpoints_refuse_example :
    (change_password memory env counters show_text limit (λ s. true) codec "bad" body busy ≡ (
      raised (domain_of invalid_token),
      asked memory env counters show_text limit (λ s. true) codec "bad" busy,
    ))
    × (read_me memory env counters show_text limit (λ s. true) codec "bad" busy ≡ (
      raised (domain_of invalid_token),
      asked memory env counters show_text limit (λ s. true) codec "bad" busy,
    ))
    × (get_user memory env counters show_text limit (λ s. true) codec "bad" 2 busy ≡ (
      raised (domain_of invalid_token),
      asked memory env counters show_text limit (λ s. true) codec "bad" busy,
    ))
    × (list_users memory env counters show_text limit (λ s. true) codec "bad" 20 none busy ≡ (
      raised (domain_of invalid_token),
      asked memory env counters show_text limit (λ s. true) codec "bad" busy,
    ))
unfolding get_current_user
guarded_endpoints_refuse_example =
    guarded_endpoints_refuse memory env counters show_text limit (λ s. true) codec "bad" busy body 2
      20 none (domain_of invalid_token) refl
