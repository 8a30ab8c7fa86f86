-- ===== src/Families.antt =====
-- The abstract view of the refresh tokens: how the rows of the table may change from one request to
-- the next, by the rules that app/domain/auth/entities.py states for token families.
pub mod OneLive
pub mod Persistence
pub mod Drawn
pub mod Refines
use fastapi_starter.Prelude.{
  ℕ, zero, ◌≤◌, ◌<◌, ◌≡◌, Bool, Option, none, some, List, [], ◌∷◌, ◌++◌, find, count, All, ◌==◌,
}
use fastapi_starter.Domain.Users.{Uuid, Instant}
use fastapi_starter.Database.Models.{RefreshTokenModel}
use fastapi_starter.Database.Session.{has_jti, put_token, update_where}
use fastapi_starter.Database.TokenRepository.{live_in_family, live_of_user, revoked_now}

abbrev pub in_family : Uuid → RefreshTokenModel → Bool
in_family f m = m.family_id == f

-- One request: nothing changes, a family or a user's tokens are revoked, a login starts a family
-- with a new id, or a live token is revoked and a live successor joins its family.
pub data Step (IsNew : Uuid → Type 0) (rows after : List RefreshTokenModel) : Type 0 where
  keep : after ≡ rows → Step IsNew rows after
  sweep_family :
      (f : Uuid) (at : Instant)
      → after ≡ update_where (live_in_family f) (revoked_now at) rows
      → Step IsNew rows after
  sweep_user :
      (u : Uuid) (at : Instant)
      → after ≡ update_where (live_of_user u) (revoked_now at) rows
      → Step IsNew rows after
  start :
      (fresh : RefreshTokenModel)
      → fresh.revoked_at ≡ none
      → IsNew fresh.family_id
      → after ≡ rows ++ fresh ∷ []
      → Step IsNew rows after
  rotate :
      (old fresh : RefreshTokenModel) (at : Instant)
      → find (has_jti old.jti) rows ≡ some old
      → old.revoked_at ≡ none
      → fresh.revoked_at ≡ none
      → fresh.family_id ≡ old.family_id
      → after ≡ put_token (revoked_now at old) rows ++ fresh ∷ []
      → Step IsNew rows after

-- No family has two tokens that are not revoked.
abbrev pub OneLive : List RefreshTokenModel → Type 0
OneLive rows = (f : Uuid) → count (live_in_family f) rows ≤ 1

-- The family ids of the rows are draws of `uuid4` before the n-th call.
abbrev pub Drawn : (ℕ → Uuid) → ℕ → List RefreshTokenModel → Type 0
Drawn uuid4 n = All (λ r. (k : ℕ) × (k < n) × (r.family_id ≡ uuid4 k))

-- A draw between two calls.
abbrev pub DrawnSince : (ℕ → Uuid) → ℕ → ℕ → Uuid → Type 0
DrawnSince uuid4 n n' f = (k : ℕ) × (n ≤ k) × (k < n') × (f ≡ uuid4 k)

-- No two of the first draws are equal: what version-4 UUIDs give, up to a negligible probability.
abbrev pub NoRepeat : (ℕ → Uuid) → ℕ → Type 0
NoRepeat uuid4 limit = (m n : ℕ) → m < limit → n < limit → uuid4 m ≡ uuid4 n → m ≡ n
