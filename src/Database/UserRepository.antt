-- ===== src/Database/UserRepository.antt =====
-- app/infrastructure/database/repositories/user_repository.py.
pub mod Lookups
use fastapi_starter.Prelude.{
  arith, ◌≡◌, refl, String, Bool, Option, none, some, List, [], ◌∷◌, where_rows, any, str_eq,
}
use fastapi_starter.Domain.Errors.{Result, ok, err, other, user_not_found}
use fastapi_starter.Domain.Errors
use fastapi_starter.Domain.Email.{Email}
use fastapi_starter.Domain.Users.{UserId, User}
use fastapi_starter.Exec.{resume_keeps, Exec, raise_domain, lift, gets, ◌>>=◌}
use fastapi_starter.Ports.{Env, World, on_session}
use fastapi_starter.Database.Models.{UserModel}
use fastapi_starter.Database.Session.{Session}
use fastapi_starter.Database.UserMapper.{to_domain, to_model, apply_to_model}

-- `to_domain(model) if model is not None else None`
unfoldable pub load :
    (String → String) → (String → String) → Option UserModel → Result (Option User)
load lower repr none = ok none
load lower repr (some m) = Errors.◌>>=◌ (to_domain lower repr m) (λ u. ok (some u))

-- A loaded user has the key and the flag of its row.
pub load-some :
    (lower repr : String → String) (m : UserModel) (user : User)
    → load lower repr (some m) ≡ ok (some user)
    → (user.id.value ≡ m.id) × (user.is_active ≡ m.is_active)
unfolding load to_domain
load-some lower repr m user loaded = ground arith

pub loaded_row :
    (lower repr : String → String) (row : UserModel) {user : User}
    → to_domain lower repr row ≡ ok user
    → load lower repr (some row) ≡ ok (some user)
unfolding load
loaded_row lower repr row e = rw e

-- `result.scalar_one_or_none()`
unfoldable pub scalar_one_or_none {ℓ} : {A : Type ℓ} → List A → Result (Option A)
scalar_one_or_none [] = ok none
scalar_one_or_none (a ∷ []) = ok (some a)
scalar_one_or_none (a ∷ b ∷ l) = err (other "MultipleResultsFound")

abbrev pub with_email : String → UserModel → Bool
with_email e m = str_eq m.email e

module _ {S : Type 0} (db : Session S) (env : Env) where
  unfoldable pub add : User → Exec (World S) (Unit {0})
  add user = on_session (db.add_user (to_model user))

  write_back : User → Option UserModel → Exec (World S) (Unit {0})
  write_back user none = raise_domain user_not_found
  write_back user (some m) = on_session (db.set_user (apply_to_model user m))

  unfoldable pub update : User → Exec (World S) (Unit {0})
  unfolding write_back
  update user = do model ← gets (λ w. db.get_user user.id.value w.session); write_back user model

  unfoldable pub get_by_id : UserId → Exec (World S) (Option User)
  unfolding load
  get_by_id user_id = do
    model ← gets (λ w. db.get_user user_id.value w.session)
    lift (load env.lower env.repr model)

  unfoldable pub get_by_email : Email → Exec (World S) (Option User)
  unfolding load scalar_one_or_none
  get_by_email email = do
    rows ← gets (λ w. where_rows (with_email email.value) (db.select_users w.session))
    model ← lift (scalar_one_or_none rows)
    lift (load env.lower env.repr model)

  unfoldable pub exists_by_email : Email → Exec (World S) Bool
  exists_by_email email = gets (λ w. any (with_email email.value) (db.select_users w.session))

  -- A query changes nothing.
  pub get_by_email_keeps : (address : Email) (w : World S) → (get_by_email address w).1 ≡ w
  unfolding get_by_email
  get_by_email_keeps address w =
      resume_keeps (λ v. v)
        (scalar_one_or_none (where_rows (with_email address.value) (db.select_users w.session))) _ w
        (λ _. refl)
