-- ===== src/Database/Tables.antt =====
-- Lemmas on the rows of the tables: keys, lookups and constraints under the changes that the
-- repositories make.
use mathlib.Core.Path.{subst}
use fastapi_starter.Domain.Users.{Uuid}
use fastapi_starter.Prelude.{
  All-find, Bool-cases, inl, inr, if◌then◌else◌, All-append, sym, some, ◌≡◌, refl, ◌∙◌, Bool, true,
  false, none, List, [], ◌∷◌, ◌++◌, map, any, any-append, find, All, arith, ◌==◌,
}
use fastapi_starter.Database.Models.{UserModel, RefreshTokenModel}
use fastapi_starter.Database.Session.{put_token, Holds, no_clash, has_jti, has_id}

module _ {ℓ} {A : Type ℓ} where
  pub any-map :
      (p q : A → Bool) (f : A → A)
      → ((a : A) → p (f a) ≡ q a)
      → (xs : List A) → any p (map f xs) ≡ any q xs
  any-map p q f h [] = refl
  any-map p q f h (x ∷ xs) = ground (arith, h x, any-map p q f h xs)

  -- A change that keeps the compared part keeps the absence of clashes.
  pub no_clash-map :
      (same : A → A → Bool) (f : A → A)
      → ((a b : A) → same (f a) (f b) ≡ same a b)
      → (xs : List A) → no_clash same (map f xs) ≡ no_clash same xs
  no_clash-map same f h [] = refl
  no_clash-map same f h (x ∷ xs) =
      ground (arith, any-map (same (f x)) (same x) f (h x) xs, no_clash-map same f h xs)

  -- One more element that nothing clashes with.
  pub no_clash-snoc :
      (same : A → A → Bool) (x : A) (xs : List A)
      → no_clash same xs ≡ true
      → any (λ a. same a x) xs ≡ false
      → no_clash same (xs ++ x ∷ []) ≡ true
  no_clash-snoc same x [] h k = refl
  no_clash-snoc same x (y ∷ xs) h k =
      ground (arith, any-append (same y) xs (x ∷ []), no_clash-snoc same x xs)

  pub none_of_find : (p : A → Bool) (xs : List A) → find p xs ≡ none → any p xs ≡ false
  none_of_find p [] h = refl
  none_of_find p (x ∷ xs) h = ground (arith, none_of_find p xs)

  pub All-map {κ} :
      (P : A → Type κ) (f : A → A)
      → ((a : A) → P a → P (f a))
      → (xs : List A) → All P xs
      → All P (map f xs)
  All-map P f h [] a = tt
  All-map P f h (x ∷ xs) a = (h x a.0, All-map P f h xs a.1)

-- Changes of a token row that keep its key and its owner keep the constraints.
pub Holds-map_tokens :
    (f : RefreshTokenModel → RefreshTokenModel)
    → ((r : RefreshTokenModel) → (f r).jti ≡ r.jti)
    → ((r : RefreshTokenModel) → (f r).user_id ≡ r.user_id)
    → {us : List UserModel} {ts : List RefreshTokenModel} → Holds us ts
    → Holds us (map f ts)
Holds-map_tokens f key owner {us} {ts} h = record {
  ids = h.ids;
  emails = h.emails;
  jtis = no_clash-map (λ a b. a.jti == b.jti) f (λ a b. ground (arith, key a, key b)) ts ∙ h.jtis;
  owners = All-map (λ t. any (has_id t.user_id) us ≡ true) f (λ t k. rw (owner t) k) ts h.owners;
  lengths = h.lengths;
}

pub find-has_id :
    (i : Uuid) (rows : List UserModel) {m : UserModel} → find (has_id i) rows ≡ some m → m.id ≡ i
find-has_id i [] {m} h = cc
find-has_id i (x ∷ rows) {m} h = ground (arith, find-has_id i rows {m = m})

-- A row that is found has the key that was looked for, and is found by its own.
pub find-id_self :
    (i : Uuid) (rows : List UserModel) {m : UserModel}
    → find (has_id i) rows ≡ some m
    → find (has_id m.id) rows ≡ some m
find-id_self i rows {m} h =
    subst (λ k. find (has_id k) rows ≡ some m) (sym (find-has_id i rows h)) h

pub some_of_find {ℓ} :
    {A : Type ℓ} (p : A → Bool) (xs : List A) {a : A} → find p xs ≡ some a → any p xs ≡ true
some_of_find p [] {a} h = cc
some_of_find p (x ∷ xs) {a} h = ground (arith, some_of_find p xs {a = a})

-- A new token with a new key, of a user who exists, keeps the constraints.
pub Holds-add_token :
    (t : RefreshTokenModel) {us : List UserModel} {ts : List RefreshTokenModel}
    → any (has_jti t.jti) ts ≡ false
    → any (has_id t.user_id) us ≡ true
    → Holds us ts
    → Holds us (ts ++ t ∷ [])
Holds-add_token t {us} {ts} new known h = record {
  ids = h.ids;
  emails = h.emails;
  jtis = no_clash-snoc (λ a b. a.jti == b.jti) t ts h.jtis new;
  owners = All-append (λ r. any (has_id r.user_id) us ≡ true) ts (t ∷ []) h.owners (known, tt);
  lengths = h.lengths;
}

All-put_token :
    (us : List UserModel) (m : RefreshTokenModel) (ts : List RefreshTokenModel)
    → any (has_id m.user_id) us ≡ true
    → All (λ t. any (has_id t.user_id) us ≡ true) ts
    → All (λ t. any (has_id t.user_id) us ≡ true) (put_token m ts)
All-put_token us m [] known h = tt
All-put_token us m (t ∷ ts) known h = elim (Bool-cases (t.jti == m.jti)) [
  | inl hit ↦ rw hit (known, All-put_token us m ts known h.1)
  | inr miss ↦ rw miss (h.0, All-put_token us m ts known h.1)
]

-- So does writing a stored token again, with the same key and owner.
pub Holds-put_token :
    (old m : RefreshTokenModel) {us : List UserModel} {ts : List RefreshTokenModel}
    → find (has_jti m.jti) ts ≡ some old
    → m.user_id ≡ old.user_id
    → Holds us ts
    → Holds us (put_token m ts)
Holds-put_token old m {us} {ts} found owner h = record {
  ids = h.ids;
  emails = h.emails;
  jtis =
      no_clash-map (λ a b. a.jti == b.jti) (λ r. if r.jti == m.jti then m else r)
        (λ a b. ground arith) ts
      ∙ h.jtis;
  owners =
      All-put_token us m ts
        (rw owner
          (All-find (λ t. any (has_id t.user_id) us ≡ true) (has_jti m.jti) ts h.owners found).0)
        h.owners;
  lengths = h.lengths;
}
