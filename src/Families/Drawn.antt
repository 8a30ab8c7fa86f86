-- ===== src/Families/Drawn.antt =====
-- New families are empty: their ids come from draws that no earlier row used.
use fastapi_starter.Prelude.{
  ℕ, ◌≤◌, ◌<◌, ◌≡◌, refl, ◌∙◌, Bool, List, [], ◌∷◌, map, count, All-append, All-find, arith, ◌==◌,
  if◌then◌else◌, Bool-cases, inl, inr,
}
use fastapi_starter.Domain.Users.{Uuid, Instant}
use fastapi_starter.Database.Models.{RefreshTokenModel}
use fastapi_starter.Database.Session.{has_jti, put_token, update_where}
use fastapi_starter.Database.Tables.{All-map}
use fastapi_starter.Database.TokenRepository.{live_in_family, live_of_user, revoked_now}
use fastapi_starter.Families.{
  Step, keep, sweep_family, sweep_user, start, rotate, OneLive, in_family, Drawn, DrawnSince,
  NoRepeat,
}
use fastapi_starter.Families.OneLive.{Step-OneLive}

module _ (uuid4 : ℕ → Uuid) (limit : ℕ) (unique : NoRepeat uuid4 limit) where
  in_family_new :
      (n n' : ℕ) (f : Uuid) (rows : List RefreshTokenModel)
      → n' ≤ limit
      → DrawnSince uuid4 n n' f
      → Drawn uuid4 n rows
      → count (in_family f) rows ≡ 0
  in_family_new n n' f [] below new d = refl
  in_family_new n n' f (r ∷ rows) below (k, le, lt, e) ((m, older, drawn), d) = ground (
    arith,
    in_family_new n n' f rows below (k, le, lt, e) d,
    unique m k (omega arith) (omega arith),
  )

  later-Drawn :
      (n n' : ℕ) (rows : List RefreshTokenModel) → n ≤ n' → Drawn uuid4 n rows → Drawn uuid4 n' rows
  later-Drawn n n' [] le d = tt
  later-Drawn n n' (r ∷ rows) le ((k, lt, e), d) = ((k, omega arith, e), later-Drawn n n' rows le d)

  Drawn-map :
      (n : ℕ) (f : RefreshTokenModel → RefreshTokenModel)
      → ((r : RefreshTokenModel) → (f r).family_id ≡ r.family_id)
      → (rows : List RefreshTokenModel) → Drawn uuid4 n rows
      → Drawn uuid4 n (map f rows)
  Drawn-map n f same rows =
      All-map (λ r. (k : ℕ) × (k < n) × (r.family_id ≡ uuid4 k)) f
        (λ r (k, lt, e). (k, lt, same r ∙ e)) rows

  Drawn-put :
      (n : ℕ) (m : RefreshTokenModel) (rows : List RefreshTokenModel)
      → (k : ℕ) × (k < n) × (m.family_id ≡ uuid4 k)
      → Drawn uuid4 n rows
      → Drawn uuid4 n (put_token m rows)
  Drawn-put n m [] known d = tt
  Drawn-put n m (r ∷ rows) known d = elim (Bool-cases (r.jti == m.jti)) [
    | inl hit ↦ rw hit (known, Drawn-put n m rows known d.1)
    | inr miss ↦ rw miss (d.0, Drawn-put n m rows known d.1)
  ]

  sweep-Drawn :
      (n : ℕ) (test : RefreshTokenModel → Bool) (at : Instant) (rows : List RefreshTokenModel)
      → Drawn uuid4 n rows
      → Drawn uuid4 n (update_where test (revoked_now at) rows)
  sweep-Drawn n test at =
      Drawn-map n (λ r. if test r then revoked_now at r else r) (λ r. ground arith)

  pub Step-Drawn :
      (n n' : ℕ) {rows after : List RefreshTokenModel}
      → n ≤ n'
      → Step (DrawnSince uuid4 n n') rows after
      → Drawn uuid4 n rows
      → Drawn uuid4 n' after
  Step-Drawn n n' {rows} le (keep e) d = rw e (later-Drawn n n' rows le d)
  Step-Drawn n n' {rows} le (sweep_family f at e) d =
      rw e (sweep-Drawn n' (live_in_family f) at rows (later-Drawn n n' rows le d))
  Step-Drawn n n' {rows} le (sweep_user u at e) d =
      rw e (sweep-Drawn n' (live_of_user u) at rows (later-Drawn n n' rows le d))
  Step-Drawn n n' {rows} le (start fresh live (k, le', lt, new) e) d = rw e (
      All-append (λ r. (k : ℕ) × (k < n') × (r.family_id ≡ uuid4 k)) rows (fresh ∷ [])
        (later-Drawn n n' rows le d) ((k, lt, new), tt))
  Step-Drawn n n' {rows} le (rotate old fresh at found live born same e) d =
      let d' = later-Drawn n n' rows le d in
      let known =
        (All-find (λ r. (k : ℕ) × (k < n') × (r.family_id ≡ uuid4 k)) (has_jti old.jti) rows d'
          found).0 in
      rw e (
        All-append (λ r. (k : ℕ) × (k < n') × (r.family_id ≡ uuid4 k))
          (put_token (revoked_now at old) rows) (fresh ∷ [])
          (Drawn-put n' (revoked_now at old) rows known d')
          ((known.0, known.1, same ∙ known.2), tt))

  pub Step-OneLive-Drawn :
      (n n' : ℕ) {rows after : List RefreshTokenModel}
      → n' ≤ limit
      → Step (DrawnSince uuid4 n n') rows after
      → Drawn uuid4 n rows
      → OneLive rows
      → OneLive after
  Step-OneLive-Drawn n n' {rows} below step d =
      Step-OneLive step (λ f new. in_family_new n n' f rows below new d)
