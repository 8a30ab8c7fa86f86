-- ===== src/Database/TokenRepository/Rows.antt =====
-- The rows of the token table as a store of records: inserting, writing a row again, and ending
-- the rows that a clause describes.
use mathlib.Core.Option
use mathlib.Core.Path.{fun_ext}
use fastapi_starter.Prelude.{
  ◌≡◌, refl, sym, ◌∙◌, ap, Bool, true, false, not, ◌&&◌, ◌==◌, Option, none, some, Option-cases,
  Bool-cases, inl, inr, List, [], ◌∷◌, ◌++◌, find, if◌then◌else◌, arith,
}
use fastapi_starter.Domain.Users.{Uuid, Instant}
use fastapi_starter.Domain.Tokens.{RefreshTokenRecord, is_set}
use fastapi_starter.Database.Models.{Datetime, aware, RefreshTokenModel}
use fastapi_starter.Database.Session.{has_jti, put_token, update_where}
use fastapi_starter.Database.UserMapper.{as_utc}
use fastapi_starter.Database.TokenMapper.{to_domain, to_model, apply_to_model}
use fastapi_starter.Database.TokenRepository.{revoked_now}
use fastapi_starter.Database.TokenRepository.Contract.{insert, end_where, records}
use fastapi_starter.Families.Persistence.{find-map_jti, find-has_jti, find-jti_self}

set_as_utc : (o : Option Datetime) → is_set (Option.map as_utc o) ≡ is_set o
set_as_utc none = refl
set_as_utc (some t) = refl

read_back : (o : Option Instant) → Option.map as_utc (Option.map aware o) ≡ o
read_back none = refl
read_back (some t) = refl

record_of_row : (r : RefreshTokenRecord) → to_domain (to_model r) ≡ r
unfolding to_domain to_model
record_of_row r = ap (λ t. record r { revoked_at = t }) (read_back r.revoked_at)

record_of_change :
    (r : RefreshTokenRecord) (m : RefreshTokenModel)
    → to_domain (apply_to_model r m) ≡ record (to_domain m) { revoked_at = r.revoked_at }
unfolding to_domain apply_to_model
record_of_change r m = ap (λ t. record (to_domain m) { revoked_at = t }) (read_back r.revoked_at)

find_last :
    (j : Uuid) (m : RefreshTokenModel) (rows : List RefreshTokenModel)
    → find (has_jti m.jti) rows ≡ none
    → find (has_jti j) (rows ++ m ∷ []) ≡ (if j == m.jti then some m else find (has_jti j) rows)
find_last j m [] unused = ground arith
find_last j m (x ∷ rows) unused = ground (arith, find_last j m rows)

find_put :
    (j : Uuid) (m row : RefreshTokenModel) (rows : List RefreshTokenModel)
    → find (has_jti m.jti) rows ≡ some row
    → find (has_jti j) (put_token m rows) ≡ (if j == m.jti then some m else find (has_jti j) rows)
find_put j m row rows found =
    find-map_jti (λ r. if r.jti == m.jti then m else r) (λ r. ground arith) j rows
    ∙ elim (Option-cases (find (has_jti j) rows)) [
      | inl missing ↦ ground arith
      | inr (r, hit) ↦ ground (arith, find-has_jti j rows hit)
    ]

-- Of a row, the columns that the test reads are those of its record.
ended_row :
    (test : RefreshTokenRecord → Bool) (live : RefreshTokenModel → Bool) (at : Instant)
    (m : RefreshTokenModel)
    → live m ≡ (test (to_domain m) && not (is_set m.revoked_at))
    → to_domain (if live m then revoked_now at m else m) ≡ (
        if test (to_domain m) && not (is_set (to_domain m).revoked_at)
        then record (to_domain m) { revoked_at = some at }
        else to_domain m)
unfolding to_domain
ended_row test live at m reads =
    rw (set_as_utc m.revoked_at, sym reads)
      (elim (Bool-cases (live m)) [ inl hit ↦ rw hit refl | inr miss ↦ rw miss refl ])

map_some :
    {A B C D : Type 0} (f : A → B) (g : B → D) (f' : A → C) (g' : C → D) (o : Option A)
    → ((a : A) → g (f a) ≡ g' (f' a))
    → Option.map g (Option.map f o) ≡ Option.map g' (Option.map f' o)
map_some f g f' g' none same = refl
map_some f g f' g' (some a) same = ap some (same a)

map_if :
    {A B : Type 0} (f : A → B) (b : Bool) (a : A) (o : Option A)
    → Option.map f (if b then some a else o) ≡ (if b then some (f a) else Option.map f o)
map_if f true a o = refl
map_if f false a o = refl

map-none : {A B : Type 0} (f : A → B) (o : Option A) → Option.map f o ≡ none → o ≡ none
map-none f none h = refl
map-none f (some a) h = cc

pub records_added :
    (r : RefreshTokenRecord) (rows : List RefreshTokenModel)
    → records rows r.jti ≡ none
    → records (rows ++ to_model r ∷ []) ≡ insert r (records rows)
unfolding to_model
records_added r rows unused = fun_ext (λ j.
    ap (Option.map to_domain) (find_last j (to_model r) rows (map-none to_domain _ unused))
    ∙ map_if to_domain (j == r.jti) (to_model r) (find (has_jti j) rows)
    ∙ ap (λ x. if j == r.jti then some x else records rows j) (record_of_row r))

pub records_put :
    (r : RefreshTokenRecord) (m : RefreshTokenModel) (rows : List RefreshTokenModel)
    → find (has_jti r.jti) rows ≡ some m
    → records (put_token (apply_to_model r m) rows)
      ≡ insert (record (to_domain m) { revoked_at = r.revoked_at }) (records rows)
unfolding to_domain apply_to_model
records_put r m rows found = fun_ext (λ j.
    ap (Option.map to_domain)
      (find_put j (apply_to_model r m) m rows (find-jti_self r.jti rows found))
    ∙ map_if to_domain (j == m.jti) (apply_to_model r m) (find (has_jti j) rows)
    ∙ ap (λ x. if j == m.jti then some x else records rows j) (record_of_change r m))

-- A bulk update ends the records that its clause describes.
pub records_ended :
    (test : RefreshTokenRecord → Bool) (live : RefreshTokenModel → Bool) (at : Instant)
    (rows : List RefreshTokenModel)
    → ((m : RefreshTokenModel) → live m ≡ (test (to_domain m) && not (is_set m.revoked_at)))
    → records (update_where live (revoked_now at) rows) ≡ end_where test at (records rows)
records_ended test live at rows reads = fun_ext (λ j.
    ap (Option.map to_domain)
      (find-map_jti (λ m. if live m then revoked_now at m else m) (λ m. ground arith) j rows)
    ∙ map_some _ _ _ _ (find (has_jti j) rows) (λ m. ended_row test live at m (reads m)))
