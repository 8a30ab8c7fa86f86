-- ===== src/Ioc/Fitting.antt =====
-- Which bindings may replace the default ones.
use fastapi_starter.Prelude.{
  ℕ, zero, suc, ◌<◌, ◌≡◌, refl, Bool, true, false, List, [], ◌∷◌, ◌++◌, ◌&&◌, ◌||◌, leb,
  if◌then◌else◌, All, arith, ltb,
}
use fastapi_starter.Ioc.{Dependency, Scope, app, request, Binding, default_bindings, code, visible}

abbrev nth : {A : Type 0} → A → List A → ℕ → A
nth out [] n = out
nth out (x ∷ xs) zero = x
nth out (x ∷ xs) (suc n) = nth out xs n

-- How far a type is from those that need nothing, in the order of the numbers of the types.
unfoldable pub rank : Dependency → ℕ
rank d =
    nth 0
      (0 ∷ 1 ∷ 1 ∷ 1 ∷ 1 ∷ 2 ∷ 3 ∷ 4 ∷ 5 ∷ 5 ∷ 0 ∷ 0 ∷ 2 ∷ 2 ∷ 3 ∷ 0 ∷ 6 ∷ 6 ∷ 6 ∷ 6 ∷ 6 ∷ 6 ∷ 6
        ∷ [])
      (code d)

-- The scope of the default binding: the session, what wraps it, and the handlers live as long as
-- a request.
unfoldable pub home : Dependency → Scope
home d = if (leb 7 (code d) && leb (code d) 9) || leb 16 (code d) then request else app

abbrev pub all {ℓ} : {A : Type ℓ} → (A → Bool) → List A → Bool
all p [] = true
all p (x ∷ xs) = p x && all p xs

abbrev pub same_scope : Scope → Scope → Bool
same_scope app app = true
same_scope request request = true
same_scope app request = false
same_scope request app = false

-- A type that a factory for `provides` may need: it lives as long, and is nearer to the types that
-- need nothing.
abbrev pub may_need : Binding → Dependency → Bool
may_need b n = ltb (rank n) (rank b.provides) && visible b.scope (home n)

-- A binding in the scope of the default one, which needs only such types.
abbrev pub fits : Binding → Bool
fits b = same_scope b.scope (home b.provides) && all (may_need b) b.needs

pub all-append {ℓ} :
    {A : Type ℓ} (p : A → Bool) (xs ys : List A)
    → all p xs ≡ true
    → all p ys ≡ true
    → all p (xs ++ ys) ≡ true
all-append p [] ys h k = k
all-append p (x ∷ xs) ys h k = ground (arith, all-append p xs ys)

same_scope_eq : (s t : Scope) → same_scope s t ≡ true → s ≡ t
same_scope_eq app app h = refl
same_scope_eq request request h = refl
same_scope_eq app request h = cc
same_scope_eq request app h = cc

pub fits_scope : (b : Binding) → fits b ≡ true → b.scope ≡ home b.provides
fits_scope b h = same_scope_eq b.scope (home b.provides) (ground arith)

-- What a type must be for a binding to need it.
abbrev pub IsNear : Scope → ℕ → Dependency → Type 0
IsNear scope top n = (rank n < top) × (visible scope (home n) ≡ true)

needs-IsNear :
    (b : Binding) (ns : List Dependency)
    → all (may_need b) ns ≡ true
    → All (IsNear b.scope (rank b.provides)) ns
needs-IsNear b [] h = tt
needs-IsNear b (n ∷ ns) h = ((ground arith, ground arith), needs-IsNear b ns (ground arith))

pub fits-IsNear : (b : Binding) → fits b ≡ true → All (IsNear b.scope (rank b.provides)) b.needs
fits-IsNear b h = needs-IsNear b b.needs (ground arith)

-- Types of one number are the same to the container.
pub rank_of_code : (a b : Dependency) → code a ≡ code b → rank a ≡ rank b
unfolding rank
rank_of_code a b h = rw h refl

pub home_of_code : (a b : Dependency) → code a ≡ code b → home a ≡ home b
unfolding home
home_of_code a b h = rw h refl

-- The default bindings do.
pub defaults_fit : all fits default_bindings ≡ true
unfolding rank home
defaults_fit = refl
