-- ===== src/Queries/Ordering.antt =====
-- The order of the rows by their ids.
use fastapi_starter.Prelude.{
  ◌<◌, ◌≡◌, ◌≢◌, refl, Bool, true, false, List, [], ◌∷◌, All, any, where_rows, ltb, ◌==◌, ◌==◌,
  arith, Bool-cases, inl, inr, ltb→lt,
}
use fastapi_starter.Database.Models.{UserModel}
use fastapi_starter.Database.Session.{no_clash}
use fastapi_starter.Queries.{insert, sort_by_id, beyond}

-- Every id is below those that follow.
abbrev pub Ascending : List UserModel → Type 0
Ascending [] = Unit
Ascending (x ∷ xs) = All (λ y. x.id < y.id) xs × Ascending xs

All-map {ℓ κ μ} :
    {A : Type ℓ} {P : A → Type κ} {Q : A → Type μ}
    → ((x : A) → P x → Q x)
    → (xs : List A) → All P xs
    → All Q xs
All-map f [] h = tt
All-map f (x ∷ xs) h = (f x h.0, All-map f xs h.1)

insert-All :
    (P : UserModel → Type 0) (m : UserModel) (xs : List UserModel)
    → P m
    → All P xs
    → All P (insert m xs)
insert-All P m [] hm h = (hm, tt)
insert-All P m (x ∷ xs) hm h = elim (Bool-cases (ltb m.id x.id)) [
  | inl below ↦ rw below (hm, h)
  | inr above ↦ rw above (h.0, insert-All P m xs hm h.1)
]

sort-All : (P : UserModel → Type 0) (xs : List UserModel) → All P xs → All P (sort_by_id xs)
sort-All P [] h = tt
sort-All P (x ∷ xs) h = insert-All P x (sort_by_id xs) h.0 (sort-All P xs h.1)

insert-Ascending :
    (m : UserModel) (xs : List UserModel)
    → All (λ y. m.id ≢ y.id) xs
    → Ascending xs
    → Ascending (insert m xs)
insert-Ascending m [] new h = (tt, tt)
insert-Ascending m (x ∷ xs) new h = elim (Bool-cases (ltb m.id x.id)) [
  | inl below ↦
      let lower = ltb→lt m.id x.id below in
      rw below ((lower, All-map {P = λ y. x.id < y.id} (λ y q. omega arith) xs h.0), h)
  | inr above ↦
      let differs = new.0 in
      let higher : x.id < m.id = ground arith in
      rw above (insert-All (λ y. x.id < y.id) m xs higher h.0, insert-Ascending m xs new.1 h.1)
]

distinct :
    (m : UserModel) (xs : List UserModel)
    → any (λ y. m.id == y.id) xs ≡ false
    → All (λ y. m.id ≢ y.id) xs
distinct m [] h = tt
distinct m (x ∷ xs) h = (λ e. ground arith, distinct m xs (ground arith))

-- Rows without equal ids are sorted into ascending order.
pub sort-Ascending :
    (xs : List UserModel) → no_clash (λ a b. a.id == b.id) xs ≡ true → Ascending (sort_by_id xs)
sort-Ascending [] h = tt
sort-Ascending (x ∷ xs) h =
    insert-Ascending x (sort_by_id xs)
      (sort-All (λ y. x.id ≢ y.id) xs (distinct x xs (ground arith)))
      (sort-Ascending xs (ground arith))

where_rows-All :
    (P : UserModel → Type 0) (p : UserModel → Bool) (xs : List UserModel)
    → All P xs
    → All P (where_rows p xs)
where_rows-All P p [] h = tt
where_rows-All P p (x ∷ xs) h = elim (Bool-cases (p x)) [
  | inl hit ↦ rw hit (h.0, where_rows-All P p xs h.1)
  | inr miss ↦ rw miss (where_rows-All P p xs h.1)
]

pub where_rows-Ascending :
    (p : UserModel → Bool) (xs : List UserModel) → Ascending xs → Ascending (where_rows p xs)
where_rows-Ascending p [] h = tt
where_rows-Ascending p (x ∷ xs) h = elim (Bool-cases (p x)) [
  | inl hit ↦ rw hit (where_rows-All (λ y. x.id < y.id) p xs h.0, where_rows-Ascending p xs h.1)
  | inr miss ↦ rw miss (where_rows-Ascending p xs h.1)
]

-- A second, stronger test makes the first one idle.
pub where_rows-where_rows :
    (p q : UserModel → Bool)
    → ((x : UserModel) → p x ≡ true → q x ≡ true)
    → (xs : List UserModel) → where_rows p (where_rows q xs) ≡ where_rows p xs
where_rows-where_rows p q stronger [] = refl
where_rows-where_rows p q stronger (x ∷ xs) =
    ground (arith, stronger x, where_rows-where_rows p q stronger xs)

pub where_rows_all :
    (p : UserModel → Bool) (xs : List UserModel) → All (λ x. p x ≡ true) xs → where_rows p xs ≡ xs
where_rows_all p [] h = refl
where_rows_all p (x ∷ xs) h = rw (h.0, where_rows_all p xs h.1)

pub where_rows-beyond_head :
    (x : UserModel) (xs : List UserModel)
    → Ascending (x ∷ xs)
    → where_rows (beyond x.id) (x ∷ xs) ≡ xs
where_rows-beyond_head x xs h =
    let itself : ltb x.id x.id ≡ false = ground arith in
    rw itself (
      where_rows_all (beyond x.id) xs (All-map {P = λ y. x.id < y.id} (λ y q. ground arith) xs h.0))
