-- ===== src/Messaging/Order.antt =====
-- In which order the handlers are called, and what an exception does.
use fastapi_starter.Prelude.{◌≡◌, refl, ◌∙◌, sym, List, [], ◌∷◌, ◌++◌, map}
use fastapi_starter.Domain.Errors.{Error, ok, err}
use fastapi_starter.Domain.Users.{DomainEvent}
use fastapi_starter.Exec.{Exec, pure, resume-same, resume-resume, ◌>>◌}
use fastapi_starter.Messaging.{Subscriber, deliver, dispatch}

module _ {W : Type 0} where
  -- The calls that a dispatch stands for: for each event, in order, each handler, in the order of
  -- registration.
  abbrev pub deliveries : List (Subscriber W) → List DomainEvent → List (Exec W (Unit {0}))
  deliveries handlers [] = []
  deliveries handlers (event ∷ events) =
      map (λ handler. handler event) handlers ++ deliveries handlers events

  abbrev pub in_order : List (Exec W (Unit {0})) → Exec W (Unit {0})
  in_order [] = pure tt
  in_order (call ∷ calls) = call >> in_order calls

  in_order-append :
      (xs ys : List (Exec W (Unit {0}))) (w : W)
      → in_order (xs ++ ys) w ≡ (in_order xs >> in_order ys) w
  in_order-append [] ys w = refl
  in_order-append (x ∷ xs) ys w =
      resume-same (x w).0 (λ _. in_order (xs ++ ys)) (λ _. in_order xs >> in_order ys) (x w).1
        (λ _. in_order-append xs ys (x w).1)
      ∙ resume-resume (x w).0 (λ _. in_order xs) (λ _. in_order ys) (x w).1

  deliver_lem :
      (handlers : List (Subscriber W)) (event : DomainEvent) (w : W)
      → deliver handlers event w ≡ in_order (map (λ handler. handler event) handlers) w
  unfolding deliver
  deliver_lem [] event w = refl
  deliver_lem (handler ∷ handlers) event w =
      resume-same (handler event w).0 (λ _. deliver handlers event)
        (λ _. in_order (map (λ h. h event) handlers)) (handler event w).1
        (λ _. deliver_lem handlers event (handler event w).1)

  dispatch_lem :
      (handlers : List (Subscriber W)) (events : List DomainEvent) (w : W)
      → dispatch handlers events w ≡ in_order (deliveries handlers events) w
  unfolding dispatch
  dispatch_lem handlers [] w = refl
  dispatch_lem handlers (event ∷ events) w =
      let calls = map (λ handler. handler event) handlers in
      let (r, w') = in_order calls w in
      let first = deliver_lem handlers event w in
      let rest =
        resume-same r (λ _. dispatch handlers events) (λ _. in_order (deliveries handlers events))
          w' (λ _. dispatch_lem handlers events w') in
      rw first (rest ∙ sym (in_order-append calls (deliveries handlers events) w))

  -- The calls of a dispatch are made event by event, and for each event in the order of
  -- registration; the first one that raises ends the dispatch with its exception: those before it
  -- have been made, and none after it is.
  pub dispatch_stops :
      (handlers : List (Subscriber W)) (events : List DomainEvent)
      (before after : List (Exec W (Unit {0}))) (call : Exec W (Unit {0})) (w w' w'' : W)
      (e : Error)
      → deliveries handlers events ≡ before ++ call ∷ after
      → in_order before w ≡ (ok tt, w')
      → call w' ≡ (err e, w'')
      → dispatch handlers events w ≡ (err e, w'')
  dispatch_stops handlers events before after call w w' w'' e calls passed raised =
      rw
        (
          dispatch_lem handlers events w,
          calls,
          in_order-append before (call ∷ after) w,
          passed,
          raised,
        )
        refl
