-- ===== src/Messaging.antt =====
-- app/infrastructure/messaging/in_process.py and its wiring, app/ioc/providers/events.py.
pub mod Order
use fastapi_starter.Prelude.{Option, none, some, List, [], ◌∷◌, ◌++◌}
use fastapi_starter.Domain.Users.{DomainEvent, UserRegistered, user_registered}
use fastapi_starter.Exec.{Exec, pure, modify, ◌>>◌}
use fastapi_starter.Ports.{World}

abbrev pub Subscriber : Type 0 → Type 0
Subscriber W = DomainEvent → Exec W (Unit {0})

module _ {W E : Type 0} where
  -- The closure that `register` builds: `narrow` is `isinstance(event, event_type)`.
  dispatch_if_match : (DomainEvent → Option E) → (E → Exec W (Unit {0})) → Subscriber W
  dispatch_if_match narrow handler event = elim (narrow event) [
    | none ↦ pure tt
    | some e ↦ handler e
  ]

  unfoldable pub register :
      (DomainEvent → Option E) → (E → Exec W (Unit {0})) → List (Subscriber W) → List (Subscriber W)
  unfolding dispatch_if_match
  register narrow handler handlers = handlers ++ dispatch_if_match narrow handler ∷ []

module _ {W : Type 0} where
  -- The loop over the handlers, then the loop over the events.
  unfoldable pub deliver : List (Subscriber W) → Subscriber W
  deliver [] event = pure tt
  deliver (handler ∷ handlers) event = do handler event; deliver handlers event

  unfoldable pub dispatch : List (Subscriber W) → List DomainEvent → Exec W (Unit {0})
  unfolding deliver
  dispatch handlers [] = pure tt
  dispatch handlers (event ∷ events) = do deliver handlers event; dispatch handlers events

unfoldable pub as_user_registered : DomainEvent → Option UserRegistered
as_user_registered (user_registered e) = some e

-- The log line of a registration.
unfoldable pub log_user_registered : {S : Type 0} → UserRegistered → Exec (World S) (Unit {0})
log_user_registered e =
    modify (λ w. record w { dispatched = w.dispatched ++ user_registered e ∷ [] })

unfoldable pub event_dispatcher : {S : Type 0} → List (Subscriber (World S))
unfolding register as_user_registered log_user_registered
event_dispatcher = register as_user_registered log_user_registered []
