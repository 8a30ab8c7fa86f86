-- ===== src/Queries/Paging.antt =====
-- A client that follows the cursors from page to page.
use mathlib.Core.List.{append-nil}
use fastapi_starter.Prelude.{
  ℕ, suc, zero, ◌+◌, ◌-◌, ◌<◌, String, ◌≡◌, refl, sym, ◌∙◌, Bool, true, false, Option, none, some,
  List, [], ◌∷◌, ◌++◌, All, map, length, take, drop, where_rows, ltb, ltb→lt, ◌==◌, arith,
  if◌then◌else◌, Bool-cases, inl, inr,
}
use fastapi_starter.Domain.Errors.{Result, ok, err}
use fastapi_starter.Domain.Users.{Uuid}
use fastapi_starter.Database.Models.{UserModel}
use fastapi_starter.Database.Session.{no_clash}
use fastapi_starter.Users.CreateUser.{UserView}
use fastapi_starter.Queries.{
  Page, Cursors, view, insert, sort_by_id, beyond, encode_cursor, decode_cursor, clause,
  last_cursor, list_rows,
}
use fastapi_starter.Queries.Ordering.{
  Ascending, sort-Ascending, where_rows-Ascending, where_rows-where_rows, where_rows_all,
  where_rows-beyond_head,
}

module _ {ℓ} {A : Type ℓ} where
  take-take : (n : ℕ) (xs : List A) → take n (take (suc n) xs) ≡ take n xs
  take-take zero xs = refl
  take-take (suc n) [] = refl
  take-take (suc n) (x ∷ xs) = rw (take-take n xs) refl

  length-take_more : (n : ℕ) (xs : List A) → ltb n (length (take (suc n) xs)) ≡ ltb n (length xs)
  length-take_more zero [] = refl
  length-take_more zero (x ∷ xs) = ground arith
  length-take_more (suc n) [] = refl
  length-take_more (suc n) (x ∷ xs) = ground (arith, length-take_more n xs)

  take_all : (n : ℕ) (xs : List A) → ltb n (length xs) ≡ false → take n xs ≡ xs
  take_all zero [] h = refl
  take_all zero (x ∷ xs) h = ground arith
  take_all (suc n) [] h = refl
  take_all (suc n) (x ∷ xs) h = let rest = take_all n xs (ground arith) in rw rest

  length-drop : (n : ℕ) (xs : List A) → length (drop n xs) ≡ length xs - n
  length-drop zero xs = omega arith
  length-drop (suc n) [] = omega arith
  length-drop (suc n) (x ∷ xs) = let rest = length-drop n xs in omega arith

map-take-drop :
    (n : ℕ) (xs : List UserModel) → map view (take n xs) ++ map view (drop n xs) ≡ map view xs
map-take-drop zero xs = refl
map-take-drop (suc n) [] = refl
map-take-drop (suc n) (x ∷ xs) = let rest = map-take-drop n xs in rw rest

passing : (p : UserModel → Bool) (xs : List UserModel) → All (λ m. p m ≡ true) (where_rows p xs)
passing p [] = tt
passing p (x ∷ xs) = elim (Bool-cases (p x)) [
  | inl hit ↦ rw hit (hit, passing p xs)
  | inr miss ↦ rw miss (passing p xs)
]

always : (xs : List UserModel) → All (λ m. true ≡ true) xs
always [] = tt
always (x ∷ xs) = (refl, always xs)

length-insert : (m : UserModel) (xs : List UserModel) → length (insert m xs) ≡ suc (length xs)
length-insert m [] = refl
length-insert m (x ∷ xs) = ground (arith, length-insert m xs)

length-sort : (xs : List UserModel) → length (sort_by_id xs) ≡ length xs
length-sort [] = refl
length-sort (x ∷ xs) = rw (length-insert x (sort_by_id xs), length-sort xs)

module _ (codec : Cursors) where
  -- The last row of a page that is not the last page, and what lies beyond it.
  page_end :
      (n : ℕ) (xs : List UserModel)
      → Ascending xs
      → suc n < length xs
      → (z : UserModel) × (last_cursor codec (take (suc n) xs) ≡ some (encode_cursor codec z.id))
        × (where_rows (beyond z.id) xs ≡ drop (suc n) xs)
        × ((P : UserModel → Type 0) → All P xs → P z)
  page_end n [] order more = ground arith
  page_end zero (x ∷ xs) order more = (x, refl, where_rows-beyond_head x xs order, λ P h. h.0)
  page_end (suc n) (x ∷ []) order more = ground arith
  page_end (suc n) (x ∷ y ∷ ys) order more =
      let (z, last, rest, member) = page_end n (y ∷ ys) order.1 (omega arith) in
      let below : x.id < z.id = member (λ m. x.id < m.id) order.0 in
      let skipped : ltb z.id x.id ≡ false = ground arith in
      (z, last, rw skipped rest, λ P h. member P h.1)

  -- The pages that a client collects from a cursor on, at most `fuel` of them.
  abbrev onward : Option String → (String → List UserView) → List UserView
  onward none follow = []
  onward (some cursor) follow = follow cursor

  abbrev collected : Result (Page UserView) → (String → List UserView) → List UserView
  collected (err e) follow = []
  collected (ok page) follow = page.items ++ onward page.next_cursor follow

  unfoldable pub walk : ℕ → ℕ → Option String → List UserModel → List UserView
  walk limit zero cursor rows = []
  walk limit (suc fuel) cursor rows =
      collected (list_rows codec limit cursor rows) (λ next. walk limit fuel (some next) rows)

  module _ (read_back : (i : Uuid) → decode_cursor codec (encode_cursor codec i) ≡ ok i) (n : ℕ)
      (rows : List UserModel) (order : Ascending (sort_by_id rows)) where
    abbrev listed : (UserModel → Bool) → List UserModel
    listed test = where_rows test (sort_by_id rows)

    -- A page holds the first rows beyond its cursor, and a cursor if more of them follow.
    page_lem :
        (cursor : Option String) (test : UserModel → Bool)
        → clause codec cursor ≡ ok test
        → list_rows codec (suc n) cursor rows
          ≡ ok (record {
            items = map view (take (suc n) (listed test));
            next_cursor =
                if ltb (suc n) (length (listed test))
                then last_cursor codec (take (suc n) (listed test))
                else none;
          })
    unfolding list_rows
    page_lem cursor test given =
        let next : suc n + 1 ≡ suc (suc n) = omega arith in
        rw (
          list_rows,
          given,
          next,
          take-take (suc n) (listed test),
          length-take_more (suc n) (listed test),
        )

    rest_lem :
        (test : UserModel → Bool) (z : UserModel)
        → ((x y : UserModel) → test x ≡ true → x.id < y.id → test y ≡ true)
        → test z ≡ true
        → listed (beyond z.id) ≡ where_rows (beyond z.id) (listed test)
    rest_lem test z upward passes = sym (
        where_rows-where_rows (beyond z.id) test (λ x h. upward z x passes (ltb→lt z.id x.id h))
          (sort_by_id rows))

    walk_lem :
        (fuel : ℕ) (cursor : Option String) (test : UserModel → Bool)
        → clause codec cursor ≡ ok test
        → ((x y : UserModel) → test x ≡ true → x.id < y.id → test y ≡ true)
        → length (listed test) < fuel
        → walk (suc n) fuel cursor rows ≡ map view (listed test)
    unfolding walk clause
    walk_lem zero cursor test given upward enough = ground arith
    walk_lem (suc fuel) cursor test given upward enough =
        elim (Bool-cases (ltb (suc n) (length (listed test)))) [
          | inl more ↦
              let big : suc n < length (listed test) = ltb→lt _ _ more in
              let (z, last, rest, member) =
                page_end n (listed test) (where_rows-Ascending test (sort_by_id rows) order) big in
              let passes = member (λ m. test m ≡ true) (passing test (sort_by_id rows)) in
              let remaining = rest_lem test z upward passes ∙ rest in
              let given' : clause codec (some (encode_cursor codec z.id)) ≡ ok (beyond z.id) =
                rw (clause, read_back z.id) in
              let size = length-drop (suc n) (listed test) in
              let fewer : length (listed (beyond z.id)) < fuel = rw remaining (omega arith) in
              let again =
                walk_lem fuel (some (encode_cursor codec z.id)) (beyond z.id) given'
                  (λ x y h l. ground arith) fewer in
              rw (page_lem cursor test given, more, last, again, remaining)
                (map-take-drop (suc n) (listed test))
          | inr done ↦
              rw (page_lem cursor test given, done, take_all (suc n) (listed test) done, append-nil)
        ]

  -- Whatever the size of the pages, a client that starts without a cursor and follows the cursors
  -- for at most one page per row and one more collects every row of the table exactly once, in the
  -- order of the ids, if a cursor is read back as the id that it was made of.
  pub walk_lists_all :
      ((i : Uuid) → decode_cursor codec (encode_cursor codec i) ≡ ok i)
      → (n : ℕ) (rows : List UserModel) → no_clash (λ a b. a.id == b.id) rows ≡ true
      → walk (suc n) (suc (length rows)) none rows ≡ map view (sort_by_id rows)
  unfolding clause
  walk_lists_all read_back n rows distinct =
      let all = where_rows_all (λ m. true) (sort_by_id rows) (always (sort_by_id rows)) in
      let size = length-sort rows in
      rw all at (
        walk_lem read_back n rows (sort-Ascending rows distinct) (suc (length rows)) none
          (λ m. true) refl (λ x y h l. refl) (rw all (omega arith)))
