-- ===== src/Tests/Container.antt =====
-- The container with the replacements that the tests of the repository use, and a choice among
-- bindings of one type: the last one.
use mathlib.Core.Path.{subst}
use fastapi_starter.Prelude.{
  Bool, true, false, ◌≡◌, refl, ◌∙◌, Option, none, some, List, [], ◌∷◌, any, arith, Bool-cases,
  Option-cases, inl, inr,
}
use fastapi_starter.Ioc.{
  Dependency, rate_limiter, password_hasher, Binding, app, create_container, mem,
}
use fastapi_starter.Ioc.Fitting.{rank, home, all}
use fastapi_starter.Ioc.Together.{is_for, IsRegistry, order, IsPlan, bindings_fit}

abbrev or_this : Option Binding → Bool → Binding → Option Binding
or_this (some later) same b = some later
or_this none true b = some b
or_this none false b = none

abbrev last_of : List Binding → Dependency → Option Binding
last_of [] d = none
last_of (b ∷ bs) d = or_this (last_of bs d) (is_for d b) b

last_of_passes :
    (p : Binding → Bool) (bs : List Binding) (d : Dependency) {b : Binding}
    → all p bs ≡ true
    → last_of bs d ≡ some b
    → (p b ≡ true) × (is_for d b ≡ true)
last_of_passes p [] d {b} pass e = cc
last_of_passes p (x ∷ bs) d {b} pass e = elim (Option-cases (last_of bs d)) [
  | inr (later, found) ↦ let e' = rw found at e in last_of_passes p bs d (ground arith) (found ∙ e')
  | inl missing ↦ elim (Bool-cases (is_for d x)) [
    | inl hit ↦
        let e' = rw (missing, hit) at e in
        let same : x ≡ b = ground arith in
        subst (λ y. (p y ≡ true) × (is_for d y ≡ true)) same (ground arith, hit)
    | inr miss ↦ let e' = rw (missing, miss) at e in cc
  ]
]

last_of_finds :
    (bs : List Binding) (d : Dependency)
    → any (is_for d) bs ≡ true
    → (b : Binding) × (last_of bs d ≡ some b)
last_of_finds [] d h = cc
last_of_finds (x ∷ bs) d h = elim (Option-cases (last_of bs d)) [
  | inr (later, found) ↦ (later, rw found refl)
  | inl missing ↦ elim (Bool-cases (is_for d x)) [
    | inl hit ↦ (x, rw (missing, hit) refl)
    | inr miss ↦ let (later, found) = last_of_finds bs d (ground arith) in cc
  ]
]

last_of-IsRegistry : IsRegistry last_of
last_of-IsRegistry = record {
  registered = λ p bs d pass e. last_of_passes p bs d pass e;
  finds = last_of_finds;
}

-- `InMemoryAdaptersProvider` of tests/fakes.
abbrev doubles : List Binding
doubles =
    record { provides = rate_limiter; scope = app; needs = []; finalised = false }
    ∷ record { provides = password_hasher; scope = app; needs = []; finalised = false }
    ∷ []

bindings_fit_example :
    ((d : Dependency) → mem d order ≡ true) × IsPlan last_of (create_container doubles) order
unfolding rank home
bindings_fit_example = bindings_fit last_of last_of-IsRegistry doubles refl
