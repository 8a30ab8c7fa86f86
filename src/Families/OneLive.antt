-- ===== src/Families/OneLive.antt =====
-- A family never has two live tokens.
use fastapi_starter.Prelude.{
  suc, ◌≤◌, ◌≡◌, Bool, true, none, some, List, [], ◌∷◌, ◌++◌, map, find, count, count-append, arith,
  ◌==◌, if◌then◌else◌,
}
use fastapi_starter.Domain.Users.{Uuid, Instant}
use fastapi_starter.Database.Models.{RefreshTokenModel}
use fastapi_starter.Database.Session.{has_jti, put_token, update_where}
use fastapi_starter.Database.TokenRepository.{live_in_family, live_of_user, revoked_now}
use fastapi_starter.Families.{
  Step, keep, sweep_family, sweep_user, start, rotate, OneLive, in_family,
}

count-map-le {ℓ} :
    {A : Type ℓ} (p : A → Bool) (f : A → A)
    → ((a : A) → p (f a) ≡ true → p a ≡ true)
    → (xs : List A) → count p (map f xs) ≤ count p xs
count-map-le p f h [] = omega arith
count-map-le p f h (x ∷ xs) = ground (arith, h x, count-map-le p f h xs)

-- A bulk revocation makes no token live.
count-sweep-le :
    (test : RefreshTokenModel → Bool) (at : Instant) (f : Uuid) (rows : List RefreshTokenModel)
    → count (live_in_family f) (update_where test (revoked_now at) rows)
      ≤ count (live_in_family f) rows
count-sweep-le test at f rows =
    count-map-le (live_in_family f) (λ r. if test r then revoked_now at r else r)
      (λ r h. ground arith) rows

live-le-in_family :
    (f : Uuid) (rows : List RefreshTokenModel)
    → count (live_in_family f) rows ≤ count (in_family f) rows
live-le-in_family f [] = omega arith
live-le-in_family f (r ∷ rows) = ground (arith, live-le-in_family f rows)

module _ (old : RefreshTokenModel) (at : Instant) (f : Uuid) where
  count-put-le :
      (rows : List RefreshTokenModel)
      → count (live_in_family f) (put_token (revoked_now at old) rows)
        ≤ count (live_in_family f) rows
  count-put-le rows =
      count-map-le (live_in_family f) (λ r. if r.jti == old.jti then revoked_now at old else r)
        (λ r h. ground arith) rows

  -- The presented token was one of the live ones of its family.
  count-put-lt :
      (rows : List RefreshTokenModel)
      → find (has_jti old.jti) rows ≡ some old
      → old.revoked_at ≡ none
      → old.family_id ≡ f
      → suc (count (live_in_family f) (put_token (revoked_now at old) rows))
        ≤ count (live_in_family f) rows
  count-put-lt [] found live same = cc
  count-put-lt (r ∷ rows) found live same = ground (arith, count-put-le rows, count-put-lt rows)

OneLive-rotate :
    (old fresh : RefreshTokenModel) (at : Instant) (rows : List RefreshTokenModel) (f : Uuid)
    → find (has_jti old.jti) rows ≡ some old
    → old.revoked_at ≡ none
    → fresh.family_id ≡ old.family_id
    → count (live_in_family f) rows ≤ 1
    → count (live_in_family f) (put_token (revoked_now at old) rows ++ fresh ∷ []) ≤ 1
OneLive-rotate old fresh at rows f found live same h = ground (
  arith,
  count-append (live_in_family f) (put_token (revoked_now at old) rows) (fresh ∷ []),
  count-put-le old at f rows,
  count-put-lt old at f rows found live,
)

-- Every step keeps at most one live token in each family, if new families are empty.
pub Step-OneLive :
    {IsNew : Uuid → Type 0} {rows after : List RefreshTokenModel}
    → Step IsNew rows after
    → ((f : Uuid) → IsNew f → count (in_family f) rows ≡ 0)
    → OneLive rows
    → OneLive after
Step-OneLive (keep e) empty h f = rw e (h f)
Step-OneLive {rows} (sweep_family g at e) empty h f =
    rw e (omega (arith, h f, count-sweep-le (live_in_family g) at f rows))
Step-OneLive {rows} (sweep_user u at e) empty h f =
    rw e (omega (arith, h f, count-sweep-le (live_of_user u) at f rows))
Step-OneLive {rows} (start fresh live new e) empty h f = rw e (
    ground (
      arith,
      h f,
      empty fresh.family_id new,
      count-append (live_in_family f) rows (fresh ∷ []),
      live-le-in_family f rows,
    ))
Step-OneLive {rows} (rotate old fresh at found live born same e) empty h f =
    rw e (OneLive-rotate old fresh at rows f found live same (h f))
