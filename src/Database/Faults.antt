-- ===== src/Database/Faults.antt =====
-- What the repositories and the commit raise in a transaction that leaves the addresses alone.
use fastapi_starter.Prelude.{
  ℕ, ◌≡◌, refl, ◌∙◌, ap, sym, String, true, false, Option, none, some, List, [], ◌∷◌, map, any,
  find, All, All-find, arith, ◌==◌, str_eq, Bool-cases, inl, inr,
}
use fastapi_starter.Domain.Errors
use fastapi_starter.Domain.Errors.{
  Error, domain, http, other, validation_error, invalid_credentials, invalid_token, token_expired,
  domain_error, user_not_found, email_already_exists, Result, ok, err, message,
}
use fastapi_starter.Domain.Email.{email, hashed_password, email_re, strip}
use fastapi_starter.Domain.Users.{Uuid, User, from_str}
use fastapi_starter.Text.Regex.{matches}
use fastapi_starter.Exec.{Errs, if_Errs, except_validation}
use fastapi_starter.Ports.{Env, World}
use fastapi_starter.Database.Models.{UserModel}
use fastapi_starter.Database.Session.{
  Session, IsSession, CommitFault, integrity, failure, flushed, no_clash, same_email, has_id,
  put_user,
}
use fastapi_starter.Database.UserMapper.{to_domain}
use fastapi_starter.Database.Tables.{find-has_id}
use fastapi_starter.Database.UserRepository.{load, load-some, scalar_one_or_none}
use fastapi_starter.Database.UnitOfWork.{commit, names_email}

-- The errors of a request about a session or about a row that cannot be loaded, and the errors of
-- the libraries.
abbrev pub OfSessions : Error → Type 0
OfSessions (domain validation_error text) = Unit {0}
OfSessions (domain invalid_credentials text) = Unit {0}
OfSessions (domain invalid_token text) = Unit {0}
OfSessions (domain token_expired text) = Unit {0}
OfSessions (domain domain_error text) = ⊥
OfSessions (domain user_not_found text) = ⊥
OfSessions (domain email_already_exists text) = ⊥
OfSessions (http status detail headers) = ⊥
OfSessions (other name) = Unit {0}

module _ (lower repr : String → String) where
  pub email-Errs : (raw : String) → Errs OfSessions (email lower repr raw)
  unfolding email
  email-Errs raw = if_Errs OfSessions (matches email_re (lower (strip raw))) (ok _) (err _) tt tt

  pub password-Errs : (value : String) → Errs OfSessions (hashed_password value)
  unfolding hashed_password
  password-Errs value = if_Errs OfSessions (str_eq value "") (err _) (ok _) tt tt

  bind-Errs :
      {A B : Type 0} (r : Result A) (f : A → Result B)
      → Errs OfSessions r
      → ((a : A) → Errs OfSessions (f a))
      → Errs OfSessions (Errors.◌>>=◌ r f)
  bind-Errs (ok a) f first next = next a
  bind-Errs (err e) f first next = first

  pub load-Errs : (row : Option UserModel) → Errs OfSessions (load lower repr row)
  unfolding load to_domain
  load-Errs none = tt
  load-Errs (some m) =
      bind-Errs (to_domain lower repr m) (λ u. ok (some u))
        (bind-Errs (email lower repr m.email) _ (email-Errs m.email) (λ e.
          bind-Errs (hashed_password m.hashed_password) _ (password-Errs m.hashed_password)
            (λ p. tt)))
        (λ u. tt)

  pub scalar-Errs : {A : Type 0} (rows : List A) → Errs OfSessions (scalar_one_or_none rows)
  unfolding scalar_one_or_none
  scalar-Errs [] = tt
  scalar-Errs (a ∷ []) = tt
  scalar-Errs (a ∷ b ∷ rows) = tt

  -- `try: … except ValidationError: raise e`
  pub except-Errs :
      {A : Type 0} (r : Result A) (e : Error)
      → Errs OfSessions r
      → OfSessions e
      → Errs OfSessions (except_validation r e)
  unfolding except_validation
  except-Errs (ok a) e first second = tt
  except-Errs (err (domain validation_error text)) e first second = second
  except-Errs (err e') e first second = ground arith

  pub from_str-Errs :
      (parse : String → Option Uuid) (raw : String) → Errs OfSessions (from_str parse raw)
  unfolding from_str
  from_str-Errs parse raw = ground arith

-- The part of the rows that `same_email` reads.
pub emails_decide :
    (us vs : List UserModel)
    → map (λ m. m.email) us ≡ map (λ m. m.email) vs
    → no_clash same_email us ≡ no_clash same_email vs
emails_decide us vs h = by_emails us ∙ ap (no_clash str_eq) h ∙ sym (by_emails vs)
  where
    any_emails :
        (e : String) (xs : List UserModel)
        → any (λ m. str_eq e m.email) xs ≡ any (str_eq e) (map (λ m. m.email) xs)
    any_emails e [] = refl
    any_emails e (x ∷ xs) = rw (any_emails e xs) refl

    by_emails :
        (xs : List UserModel) → no_clash same_email xs ≡ no_clash str_eq (map (λ m. m.email) xs)
    by_emails [] = refl
    by_emails (x ∷ xs) = rw (any_emails x.email xs, by_emails xs) refl

others_apart :
    (i : Uuid) (m : UserModel) (us : List UserModel)
    → m.id ≡ i
    → any (λ b. i == b.id) us ≡ false
    → map (λ r. r.email) (put_user m us) ≡ map (λ r. r.email) us
others_apart i m [] e none_has = refl
others_apart i m (r ∷ us) e none_has = ground (arith, others_apart i m us e)

-- Writing a found row again with its address keeps all addresses.
pub emails-put_user :
    (row m : UserModel) (us : List UserModel)
    → no_clash (λ a b. a.id == b.id) us ≡ true
    → find (has_id m.id) us ≡ some row
    → m.email ≡ row.email
    → map (λ r. r.email) (put_user m us) ≡ map (λ r. r.email) us
emails-put_user row m [] ids found same = refl
emails-put_user row m (r ∷ us) ids found same = elim (Bool-cases (r.id == m.id)) [
  | inl hit ↦
      let first : r ≡ row = ground arith in
      let key : r.id ≡ m.id = ground arith in
      let rest = others_apart r.id m us (sym key) (ground arith) in ground (arith, rest)
  | inr miss ↦
      let rest = emails-put_user row m us (ground arith) (ground arith) same in ground (arith, rest)
]

-- The token service raises nothing else, as `decode_errors` shows of the one over PyJWT.
abbrev pub DecodeRaises : Env → Type 0
DecodeRaises env = (n : ℕ) (token : String) → Errs OfSessions (env.tokens.decode n token)

module _ {S : Type 0} (db : Session S) (h : IsSession db) where
  -- The database names the index of the addresses only where two of them clash.
  abbrev pub NamesClashes : Type 0
  NamesClashes =
      (s : S) (text : String)
      → (db.commit s).0 ≡ some (integrity text)
      → no_clash same_email (flushed (h.contents s)).users ≡ true
      → names_email text ≡ false

  -- No two of the addresses that a commit stores are the same.
  abbrev pub Apart : S → Type 0
  Apart s = no_clash same_email (flushed (h.contents s)).users ≡ true

  pub commit-Errs : NamesClashes → (w : World S) → Apart w.session → Errs OfSessions (commit db w).0
  unfolding commit
  commit-Errs names w apart = go (db.commit w.session).0 refl
    where
      go :
          (outcome : Option CommitFault)
          → (db.commit w.session).0 ≡ outcome
          → Errs OfSessions (commit db w).0
      go none e = rw e tt
      go (some (failure name)) e = rw e tt
      go (some (integrity text)) e = rw (e, names w.session text e apart) tt

-- Addresses are stored in the form that `Email` gives them.
abbrev pub IsNormal : Env → List UserModel → Type 0
IsNormal env = All (λ m. env.lower (strip m.email) ≡ m.email)

loaded_address :
    (lower repr : String → String) (m : UserModel) (user : User)
    → load lower repr (some m) ≡ ok (some user)
    → user.email.value ≡ lower (strip m.email)
unfolding load to_domain email
loaded_address lower repr m user loaded = ground arith

-- The row of a loaded user, which has the user's key and address.
pub row_of_loaded :
    (env : Env) (i : Uuid) (users : List UserModel) (user : User)
    → IsNormal env users
    → load env.lower env.repr (find (has_id i) users) ≡ ok (some user)
    → (m : UserModel) × (find (has_id i) users ≡ some m)
      × (user.id.value ≡ i)
      × (m.id ≡ i)
      × (user.email.value ≡ m.email)
unfolding load
row_of_loaded env i users user normal loaded = go (find (has_id i) users) refl loaded
  where
    go :
        (row : Option UserModel)
        → find (has_id i) users ≡ row
        → load env.lower env.repr row ≡ ok (some user)
        → (m : UserModel) × (find (has_id i) users ≡ some m)
          × (user.id.value ≡ i)
          × (m.id ≡ i)
          × (user.email.value ≡ m.email)
    go none found e = cc
    go (some m) found e =
        let (key, _) = load-some env.lower env.repr m user e in
        let own = find-has_id i users found in
        let stored =
          (All-find (λ r. env.lower (strip r.email) ≡ r.email) (has_id i) users normal found).0 in
        (m, found, key ∙ own, own, loaded_address env.lower env.repr m user e ∙ stored)
