-- ===== src/Families/Persistence.antt =====
-- A revocation is final: no step makes a revoked token live or moves its revocation time.
use mathlib.Core.Option
use mathlib.Core.Path.{subst}
use fastapi_starter.Prelude.{
  ◌≡◌, refl, sym, Bool, false, none, some, List, [], ◌∷◌, ◌++◌, map, find, arith, ◌==◌,
  if◌then◌else◌,
}
use fastapi_starter.Domain.Users.{Uuid, Instant}
use fastapi_starter.Database.Models.{Datetime, RefreshTokenModel}
use fastapi_starter.Database.Session.{has_jti, put_token, update_where}
use fastapi_starter.Database.TokenRepository.{live_in_family, live_of_user, revoked_now}
use fastapi_starter.Families.{Step, keep, sweep_family, sweep_user, start, rotate}

-- A change that keeps the keys acts on the row that a lookup finds.
pub find-map_jti :
    (f : RefreshTokenModel → RefreshTokenModel)
    → ((r : RefreshTokenModel) → (f r).jti ≡ r.jti)
    → (j : Uuid) (rows : List RefreshTokenModel)
    → find (has_jti j) (map f rows) ≡ Option.map f (find (has_jti j) rows)
find-map_jti f key j [] = refl
find-map_jti f key j (r ∷ rows) = ground (arith, key r, find-map_jti f key j rows)

pub find-append {ℓ} :
    {A : Type ℓ} (p : A → Bool) (xs ys : List A) {a : A}
    → find p xs ≡ some a
    → find p (xs ++ ys) ≡ some a
find-append p [] ys {a} h = cc
find-append p (x ∷ xs) ys {a} h = ground (arith, find-append p xs ys {a = a})

-- Every revoked row of the first table is a row of the second.
abbrev pub KeepsRevoked : List RefreshTokenModel → List RefreshTokenModel → Type 0
KeepsRevoked rows after =
    (j : Uuid) (r : RefreshTokenModel) (at : Datetime)
    → find (has_jti j) rows ≡ some r
    → r.revoked_at ≡ some at
    → find (has_jti j) after ≡ some r

sweep-KeepsRevoked :
    (test : RefreshTokenModel → Bool) (now : Instant)
    → ((r : RefreshTokenModel) (at : Datetime) → r.revoked_at ≡ some at → test r ≡ false)
    → (rows : List RefreshTokenModel) → KeepsRevoked rows (update_where test (revoked_now now) rows)
sweep-KeepsRevoked test now spares rows j r at found revoked = ground (
  arith,
  find-map_jti (λ m. if test m then revoked_now now m else m) (λ m. ground arith) j rows,
  spares r at revoked,
)

pub find-has_jti :
    (j : Uuid) (rows : List RefreshTokenModel) {r : RefreshTokenModel}
    → find (has_jti j) rows ≡ some r
    → r.jti ≡ j
find-has_jti j [] {r} h = cc
find-has_jti j (x ∷ rows) {r} h = ground (arith, find-has_jti j rows {r = r})

put-KeepsRevoked :
    (old : RefreshTokenModel) (now : Instant) (rows : List RefreshTokenModel)
    → find (has_jti old.jti) rows ≡ some old
    → old.revoked_at ≡ none
    → KeepsRevoked rows (put_token (revoked_now now old) rows)
put-KeepsRevoked old now rows stored live j r at found revoked = ground (
  arith,
  find-map_jti (λ m. if m.jti == old.jti then revoked_now now old else m) (λ m. ground arith) j
      rows,
  find-has_jti j rows found,
)

pub Step-KeepsRevoked :
    {IsNew : Uuid → Type 0} {rows after : List RefreshTokenModel}
    → Step IsNew rows after
    → KeepsRevoked rows after
Step-KeepsRevoked (keep e) j r at found revoked = rw e found
Step-KeepsRevoked {rows} (sweep_family f now e) j r at found revoked =
    rw e
      (sweep-KeepsRevoked (live_in_family f) now (λ m t k. ground arith) rows j r at found revoked)
Step-KeepsRevoked {rows} (sweep_user u now e) j r at found revoked =
    rw e (sweep-KeepsRevoked (live_of_user u) now (λ m t k. ground arith) rows j r at found revoked)
Step-KeepsRevoked {rows} (start fresh born unused e) j r at found revoked =
    rw e (find-append (has_jti j) rows (fresh ∷ []) found)
Step-KeepsRevoked {rows} (rotate old fresh now stored live born same e) j r at found revoked =
    rw e (
      find-append (has_jti j) (put_token (revoked_now now old) rows) (fresh ∷ [])
        (put-KeepsRevoked old now rows stored live j r at found revoked))

-- A row that is found is found by its own key.
pub find-jti_self :
    (j : Uuid) (rows : List RefreshTokenModel) {r : RefreshTokenModel}
    → find (has_jti j) rows ≡ some r
    → find (has_jti r.jti) rows ≡ some r
find-jti_self j rows {r} h =
    subst (λ k. find (has_jti k) rows ≡ some r) (sym (find-has_jti j rows h)) h
