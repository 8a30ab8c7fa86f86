-- ===== src/Exec.antt =====
-- Code that changes a state and may raise. What was written before a raise stays written, so the
-- state comes back beside an error too.
use fastapi_starter.Domain.Errors.{
  Error, DomainError, Result, ok, err, domain, domain_of, validation_error,
}
use fastapi_starter.Prelude.{◌≡◌, refl, Bool, true, false, if◌then◌else◌, arith}

abbrev pub Exec : Type 0 → Type 0 → Type 0
Exec W A = W → Result A × W

module _ {W A : Type 0} where
  abbrev pub pure : A → Exec W A
  pure a w = (ok a, w)

  abbrev pub raise : Error → Exec W A
  raise e w = (err e, w)

  abbrev pub raise_domain : DomainError → Exec W A
  raise_domain e = raise (domain_of e)

  abbrev pub lift : Result A → Exec W A
  lift r w = (r, w)

  abbrev pub gets : (W → A) → Exec W A
  gets f w = (ok (f w), w)

abbrev pub modify : {W : Type 0} → (W → W) → Exec W (Unit {0})
modify f w = (ok tt, f w)

module _ {W A B : Type 0} where
  abbrev pub resume : Result A → (A → Exec W B) → Exec W B
  resume (ok a) f w = f a w
  resume (err e) f w = (err e, w)

  infixl 10 ◌>>=◌
  abbrev pub ◌>>=◌ : Exec W A → (A → Exec W B) → Exec W B
  ◌>>=◌ m f w = let (r, w') = m w in resume r f w'

infixl 10 ◌>>◌
abbrev pub ◌>>◌ : {W B : Type 0} → Exec W (Unit {0}) → Exec W B → Exec W B
m >> n = m >>= λ _. n

-- `if` between two actions.
abbrev pub branch : {W A : Type 0} → Bool → Exec W A → Exec W A → Exec W A
branch true m n = m
branch false m n = n

-- `try: … except ValidationError: raise e from None`
unfoldable pub except_validation : {A : Type 0} → Result A → Error → Result A
except_validation (ok a) e = ok a
except_validation (err (domain validation_error m)) e = err e
except_validation (err other_error) e = err other_error

pub except_validation_ok :
    {A : Type 0} (r : Result A) (e : Error) {a : A} → except_validation r e ≡ ok a → r ≡ ok a
unfolding except_validation
except_validation_ok (ok a) e {a = b} h = h
except_validation_ok (err (domain validation_error m)) e {a} h = cc
except_validation_ok (err x) e {a} h = ground arith

-- A continuation that leaves a part of the state alone, whatever came before it.
pub resume_keeps :
    {W A B C : Type 0} (part : W → C) (r : Result A) (f : A → Exec W B) (w : W)
    → ((a : A) → part (f a w).1 ≡ part w)
    → part (resume r f w).1 ≡ part w
resume_keeps part (ok a) f w h = h a
resume_keeps part (err e) f w h = refl

-- What holds of the final state: by the cases of a result, and of a test.
pub resume_then :
    {W A B : Type 0} (P : W → Type 0) (r : Result A) (f : A → Exec W B) (w : W)
    → P w
    → ((a : A) → r ≡ ok a → P (f a w).1)
    → P (resume r f w).1
resume_then P (ok a) f w stop go = go a refl
resume_then P (err e) f w stop go = stop

pub branch_then :
    {W A : Type 0} (P : W → Type 0) (b : Bool) (m n : Exec W A) (w : W)
    → (b ≡ true → P (m w).1)
    → (b ≡ false → P (n w).1)
    → P (branch b m n w).1
branch_then P true m n w yes_case no_case = yes_case refl
branch_then P false m n w yes_case no_case = no_case refl

-- What a value that was returned says of the steps before it.
pub resume_ok :
    {W A B : Type 0} (r : Result A) (f : A → Exec W B) (w : W) {b : B}
    → (resume r f w).0 ≡ ok b
    → (a : A) × (r ≡ ok a) × ((f a w).0 ≡ ok b)
resume_ok (ok a) f w {b} h = (a, refl, h)
resume_ok (err e) f w {b} h = cc

pub branch-raise :
    {W A : Type 0} (b : Bool) (e : Error) (n : Exec W A) (w : W) {a : A}
    → (branch b (raise e) n w).0 ≡ ok a
    → (b ≡ false) × ((n w).0 ≡ ok a)
branch-raise true e n w {a} h = cc
branch-raise false e n w {a} h = (refl, h)

pub branch_or-raise :
    {W A : Type 0} (b : Bool) (m : Exec W A) (e : Error) (w : W) {a : A}
    → (branch b m (raise e) w).0 ≡ ok a
    → (b ≡ true) × ((m w).0 ≡ ok a)
branch_or-raise true m e w {a} h = (refl, h)
branch_or-raise false m e w {a} h = cc

-- The laws of the monad that a proof on a sequence of calls uses.
pub resume-same :
    {W A B : Type 0} (r : Result A) (f g : A → Exec W B) (w : W)
    → ((a : A) → f a w ≡ g a w)
    → resume r f w ≡ resume r g w
resume-same (ok a) f g w h = h a
resume-same (err e) f g w h = refl

pub resume-resume :
    {W A B C : Type 0} (r : Result A) (f : A → Exec W B) (g : B → Exec W C) (w : W)
    → resume r (λ a. f a >>= g) w ≡ resume (resume r f w).0 g (resume r f w).1
resume-resume (ok a) f g w = refl
resume-resume (err e) f g w = refl

pub branch_keeps :
    {W A : Type 0} (b : Bool) (m n : Exec W A) (w : W)
    → (m w).1 ≡ w
    → (n w).1 ≡ w
    → (branch b m n w).1 ≡ w
branch_keeps true m n w hm hn = hm
branch_keeps false m n w hm hn = hn

-- A predicate of what a result raises, if it raises, and by the cases of a sequence and of a test.
abbrev pub Errs {ℓ} : {A : Type ℓ} → (Error → Type 0) → Result A → Type 0
Errs P (ok a) = Unit
Errs P (err e) = P e

pub resume-Errs :
    {W A B : Type 0} (P : Error → Type 0) (r : Result A) (f : A → Exec W B) (w : W)
    → Errs P r
    → ((a : A) → Errs P (f a w).0)
    → Errs P (resume r f w).0
resume-Errs P (ok a) f w first next = next a
resume-Errs P (err e) f w first next = first

pub branch-Errs :
    {W A : Type 0} (P : Error → Type 0) (b : Bool) (m n : Exec W A) (w : W)
    → Errs P (m w).0
    → Errs P (n w).0
    → Errs P (branch b m n w).0
branch-Errs P true m n w left right = left
branch-Errs P false m n w left right = right

pub if_Errs {ℓ} :
    {A : Type ℓ} (P : Error → Type 0) (b : Bool) (r s : Result A)
    → Errs P r
    → Errs P s
    → Errs P (if b then r else s)
if_Errs P true r s left right = left
if_Errs P false r s left right = right
