-- ===== src/Ioc/Together.antt =====
-- The bindings of the container fit together.
use mathlib.Core.Path.{subst}
use fastapi_starter.Prelude.{
  ℕ, ◌<◌, ◌≡◌, refl, ◌∙◌, Bool, true, false, not, ◌&&◌, ◌||◌, Option, some, List, [], ◌∷◌, ◌++◌,
  ◌==◌, All, arith, ltb, any, any-append,
}
use fastapi_starter.Ioc.{
  Dependency, Binding, default_bindings, create_container, code, mem, visible, settings,
  database_settings, jwt_settings, redis_settings, rate_limit_settings, engine, session_factory,
  session, unit_of_work, user_query_service, clock, password_hasher, token_service, redis_client,
  rate_limiter, event_dispatcher, change_password_handler, create_user_handler, login_handler,
  logout_handler, refresh_token_handler, get_user_handler, list_users_handler,
}
use fastapi_starter.Ioc.Fitting.{
  rank, home, all, fits, all-append, fits_scope, fits-IsNear, IsNear, rank_of_code, home_of_code,
  defaults_fit,
}

abbrev pub is_for : Dependency → Binding → Bool
is_for d b = code b.provides == code d

-- The library's choice of the binding in force for a type, and what is documented of it: it is one of
-- the registered bindings of that type, whichever of them, and there is one if any is registered.
pub record IsRegistry (factory : List Binding → Dependency → Option Binding) : Type 0 where
  pub registered :
      (p : Binding → Bool) (bs : List Binding) (d : Dependency) {b : Binding}
      → all p bs ≡ true
      → factory bs d ≡ some b
      → (p b ≡ true) × (is_for d b ≡ true)
  pub finds :
      (bs : List Binding) (d : Dependency)
      → any (is_for d) bs ≡ true
      → (b : Binding) × (factory bs d ≡ some b)

-- All types, those that need most first.
abbrev pub order : List Dependency
order =
    login_handler ∷ logout_handler ∷ refresh_token_handler ∷ change_password_handler
    ∷ create_user_handler ∷ get_user_handler ∷ list_users_handler ∷ unit_of_work
    ∷ user_query_service ∷ session ∷ session_factory ∷ rate_limiter ∷ engine ∷ token_service
    ∷ redis_client ∷ database_settings ∷ jwt_settings ∷ redis_settings ∷ rate_limit_settings
    ∷ settings ∷ clock ∷ password_hasher ∷ event_dispatcher ∷ []

order_has : (d : Dependency) → mem d order ≡ true
order_has settings = refl
order_has database_settings = refl
order_has jwt_settings = refl
order_has redis_settings = refl
order_has rate_limit_settings = refl
order_has engine = refl
order_has session_factory = refl
order_has session = refl
order_has unit_of_work = refl
order_has user_query_service = refl
order_has clock = refl
order_has password_hasher = refl
order_has token_service = refl
order_has redis_client = refl
order_has rate_limiter = refl
order_has event_dispatcher = refl
order_has change_password_handler = refl
order_has create_user_handler = refl
order_has login_handler = refl
order_has logout_handler = refl
order_has refresh_token_handler = refl
order_has get_user_handler = refl
order_has list_users_handler = refl

-- What holds of all types in the list holds of every type.
of_every : (p : Dependency → Bool) → all p order ≡ true → (d : Dependency) → p d ≡ true
of_every p h settings = ground arith
of_every p h database_settings = ground arith
of_every p h jwt_settings = ground arith
of_every p h redis_settings = ground arith
of_every p h rate_limit_settings = ground arith
of_every p h engine = ground arith
of_every p h session_factory = ground arith
of_every p h session = ground arith
of_every p h unit_of_work = ground arith
of_every p h user_query_service = ground arith
of_every p h clock = ground arith
of_every p h password_hasher = ground arith
of_every p h token_service = ground arith
of_every p h redis_client = ground arith
of_every p h rate_limiter = ground arith
of_every p h event_dispatcher = ground arith
of_every p h change_password_handler = ground arith
of_every p h create_user_handler = ground arith
of_every p h login_handler = ground arith
of_every p h logout_handler = ground arith
of_every p h refresh_token_handler = ground arith
of_every p h get_user_handler = ground arith
of_every p h list_users_handler = ground arith

default_bound : (d : Dependency) → any (is_for d) default_bindings ≡ true
default_bound settings = refl
default_bound database_settings = refl
default_bound jwt_settings = refl
default_bound redis_settings = refl
default_bound rate_limit_settings = refl
default_bound engine = refl
default_bound session_factory = refl
default_bound session = refl
default_bound unit_of_work = refl
default_bound user_query_service = refl
default_bound clock = refl
default_bound password_hasher = refl
default_bound token_service = refl
default_bound redis_client = refl
default_bound rate_limiter = refl
default_bound event_dispatcher = refl
default_bound change_password_handler = refl
default_bound create_user_handler = refl
default_bound login_handler = refl
default_bound logout_handler = refl
default_bound refresh_token_handler = refl
default_bound get_user_handler = refl
default_bound list_users_handler = refl

-- All types of a lower rank are there.
abbrev covers : ℕ → List Dependency → Bool
covers top built = all (λ n. not (ltb (rank n) top) || mem n built) order

abbrev is_sorted : List Dependency → Bool
is_sorted [] = true
is_sorted (d ∷ ds) = not (mem d ds) && covers (rank d) ds && is_sorted ds

parts : (a b c : Bool) → (not a && b && c) ≡ true → (a ≡ false) × (b ≡ true) × (c ≡ true)
parts a b c h = (ground arith, ground arith, ground arith)

either : (a b : Bool) → (not a || b) ≡ true → a ≡ true → b ≡ true
either a b h k = ground arith

equal_codes : (a b : Dependency) → (code a == code b) ≡ true → code a ≡ code b
equal_codes a b h = ground arith

lower_rank : (m n : ℕ) → m < n → ltb m n ≡ true
lower_rank m n h = ground arith

module _ (factory : List Binding → Dependency → Option Binding) (container : List Binding) where
  -- A need of a factory is built before, and lives as long as what the factory makes.
  abbrev pub IsServed : Binding → List Dependency → Dependency → Type 0
  IsServed b built n =
      (mem n built ≡ true)
      × (b' : Binding) × (factory container n ≡ some b')
      × (visible b.scope b'.scope ≡ true)

  -- An order in which all can be built, the last first: each type has a binding in force, is there
  -- once, and comes after all that its factory needs.
  pub data IsPlan : List Dependency → Type 0 where
    nothing : IsPlan []
    one_more :
        (d : Dependency) (b : Binding) (built : List Dependency)
        → factory container d ≡ some b
        → mem d built ≡ false
        → All (IsServed b built) b.needs
        → IsPlan built
        → IsPlan (d ∷ built)

  module _ (h : IsRegistry factory) (fitting : all fits container ≡ true)
      (bound : (d : Dependency) → any (is_for d) container ≡ true) where
    served :
        (b : Binding) (top : ℕ) (built needs : List Dependency)
        → covers top built ≡ true
        → All (IsNear b.scope top) needs
        → All (IsServed b built) needs
    served b top built [] all_there near = tt
    served b top built (n ∷ needs) all_there ((lower, seen), near) =
        let (b', found) = h.finds container n (bound n) in
        let (fit, same) = h.registered fits container n fitting found in
        let has = of_every (λ n. not (ltb (rank n) top) || mem n built) all_there n in
        let lives : b'.scope ≡ home n =
          fits_scope b' fit ∙ home_of_code b'.provides n (equal_codes b'.provides n same) in
        let there = either (ltb (rank n) top) (mem n built) has (lower_rank (rank n) top lower) in
        ((there, b', found, rw lives seen), served b top built needs all_there near)

    sorted-IsPlan : (ds : List Dependency) → is_sorted ds ≡ true → IsPlan ds
    sorted-IsPlan [] s = nothing
    sorted-IsPlan (d ∷ ds) s =
        let (b, found) = h.finds container d (bound d) in
        let (fit, same) = h.registered fits container d fitting found in
        let top = rank_of_code b.provides d (equal_codes b.provides d same) in
        let (apart, all_there, rest) = parts (mem d ds) (covers (rank d) ds) (is_sorted ds) s in
        let near = subst (λ r. All (IsNear b.scope r) b.needs) top (fits-IsNear b fit) in
        one_more d b ds found apart (served b (rank d) ds b.needs all_there near)
          (sorted-IsPlan ds rest)

-- Whatever bindings are added to the default ones or replace them, if each has the scope of the
-- default one of its type and needs only types that live as long and have a lower rank: the types
-- that the container provides can be ordered so that each has a binding in force, is there once, and
-- comes after all that its factory needs, whose bindings live at least as long. So no type is
-- missing, none needs itself, and nothing that lives as long as the process holds on to what lives
-- as long as a request.
pub bindings_fit :
    (factory : List Binding → Dependency → Option Binding)
    → IsRegistry factory
    → (extra : List Binding) → all fits extra ≡ true
    → ((d : Dependency) → mem d order ≡ true) × IsPlan factory (create_container extra) order
unfolding create_container rank
bindings_fit factory h extra fitting = (
  order_has,
  sorted-IsPlan factory (default_bindings ++ extra) h
      (all-append fits default_bindings extra defaults_fit fitting)
      (λ d. any-append (is_for d) default_bindings extra ∙ rw (default_bound d) refl) order refl,
)
