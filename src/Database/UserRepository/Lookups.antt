-- ===== src/Database/UserRepository/Lookups.antt =====
-- user_repository.py: the two lookups of the users and the test of an address, side by side.
use fastapi_starter.Prelude.{
  ◌≡◌, String, refl, sym, ◌∙◌, ap, true, false, none, some, List, [], ◌∷◌, any, find, where_rows,
  str_eq, str_eq_iff, ◌==◌, arith, Bool-cases, inl, inr,
}
use fastapi_starter.Domain.Errors.{ok}
use fastapi_starter.Domain.Email.{Email}
use fastapi_starter.Domain.Users.{Uuid, UserId, User}
use fastapi_starter.Ports.{Env, World}
use fastapi_starter.Database.Models.{UserModel}
use fastapi_starter.Database.Session.{Session, IsSession, IsReady, no_clash, same_email, has_id}
use fastapi_starter.Database.UserRepository.{
  with_email, scalar_one_or_none, load, load-some, get_by_id, get_by_email, exists_by_email,
}

-- What the queries find among rows without clashes: nothing, or one row, which its id finds too.
data Finding (e : String) (rows : List UserModel) : Type 0 where
  nobody : any (with_email e) rows ≡ false → where_rows (with_email e) rows ≡ [] → Finding e rows
  somebody :
      (m : UserModel)
      → any (with_email e) rows ≡ true
      → where_rows (with_email e) rows ≡ m ∷ []
      → find (has_id m.id) rows ≡ some m
      → Finding e rows

nobody_left :
    (e : String) (rows : List UserModel)
    → any (with_email e) rows ≡ false
    → where_rows (with_email e) rows ≡ []
nobody_left e [] h = refl
nobody_left e (x ∷ rows) h = ground (arith, nobody_left e rows)

str_eq_swap : (a b : String) → str_eq a b ≡ false → str_eq b a ≡ false
str_eq_swap a b apart = elim (Bool-cases (str_eq b a)) [
  | inl same ↦ absurd (ground (arith, (str_eq_iff a b).1 (sym ((str_eq_iff b a).0 same))))
  | inr miss ↦ miss
]

-- The address of a row that clashes with no other is no other's.
address_apart :
    (x : UserModel) (e : String) (rows : List UserModel)
    → str_eq x.email e ≡ true
    → any (same_email x) rows ≡ false
    → any (with_email e) rows ≡ false
address_apart x e [] hit apart = refl
address_apart x e (y ∷ rows) hit apart =
    let same : x.email ≡ e = (str_eq_iff x.email e).0 hit in
    let other = str_eq_swap x.email y.email (ground arith) in
    let rest = address_apart x e rows hit (ground arith) in ground (arith, same)

id_apart :
    (i j : Uuid) (rows : List UserModel) {m : UserModel}
    → any (λ b. i == b.id) rows ≡ false
    → find (has_id j) rows ≡ some m
    → (i == m.id) ≡ false
id_apart i j [] {m} apart found = cc
id_apart i j (x ∷ rows) {m} apart found = ground (arith, id_apart i j rows {m = m})

finding :
    (e : String) (rows : List UserModel)
    → no_clash (λ a b. a.id == b.id) rows ≡ true
    → no_clash same_email rows ≡ true
    → Finding e rows
finding e [] ids emails = nobody refl refl
finding e (x ∷ rows) ids emails = elim (Bool-cases (str_eq x.email e)) [
  | inl hit ↦
      let rest = address_apart x e rows hit (ground arith) in
      let left = nobody_left e rows rest in somebody x (ground arith) (ground arith) (ground arith)
  | inr miss ↦ elim (finding e rows (ground arith) (ground arith)) [
    | nobody absent left ↦ nobody (ground arith) (ground arith)
    | somebody m there one found ↦
        let apart = id_apart x.id m.id rows (ground arith) found in
        somebody m (ground arith) (ground arith) (ground arith)
  ]
]

module _ {S : Type 0} (db : Session S) (env : Env) (w : World S) (address : Email) where
  -- The answers of the repository on an address: nobody has it, or one user has, whose row is found
  -- by the id too.
  pub data Agree : Type 0 where
    unknown :
        get_by_email db env address w ≡ (ok none, w)
        → exists_by_email db env address w ≡ (ok false, w)
        → Agree
    known :
        (i : UserId)
        → get_by_email db env address w ≡ get_by_id db env i w
        → exists_by_email db env address w ≡ (ok true, w)
        → ((user : User) → (get_by_email db env address w).0 ≡ ok (some user) → user.id ≡ i)
        → Agree

  -- In a session that nothing is pending in and whose rows keep the constraints, the three questions
  -- about users agree on every address: `exists_by_email` says no and `get_by_email` finds nobody,
  -- or it says yes, and `get_by_email` answers what `get_by_id` answers for one id, which is the id
  -- of the user that it returns. So no lookup meets two rows, and none changes anything.
  pub lookups_agree : (h : IsSession db) → IsReady (h.contents w.session) → Agree
  unfolding get_by_email get_by_id exists_by_email scalar_one_or_none
  lookups_agree h ready =
      let users = (h.contents w.session).users in
      elim (finding address.value users ready.consistent.ids ready.consistent.emails) [
        | nobody absent left ↦
            unknown (rw (h.select_users_lem w.session, left) refl)
              (rw (h.select_users_lem w.session, absent) refl)
        | somebody m there one found ↦
            let loads : (get_by_email db env address w).0 ≡ load env.lower env.repr (some m) =
              rw (h.select_users_lem w.session, one) refl in
            known (record { value = m.id })
              (rw (h.select_users_lem w.session, one, h.get_user_lem m.id w.session, found) refl)
              (rw (h.select_users_lem w.session, there) refl)
              (λ user e.
                ap (λ u. record { value = u })
                  (load-some env.lower env.repr m user (sym loads ∙ e)).0)
      ]
