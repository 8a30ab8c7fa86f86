-- ===== src/Queries.antt =====
-- The read side of the users: app/application/users/queries and
-- app/infrastructure/database/repositories/user_query_service.py.
pub mod Ordering
pub mod Paging
use fastapi_starter.Prelude.{
  ℕ, ◌+◌, String, Bool, true, Option, none, some, List, [], ◌∷◌, map, length, take, find,
  where_rows, min, max, ltb, if◌then◌else◌,
}
use fastapi_starter.Domain.Errors.{
  Result, ok, err, domain, domain_of, validation_error, user_not_found,
}
use fastapi_starter.Domain.Users.{Uuid}
use fastapi_starter.Exec.{Exec, pure, raise_domain, lift, gets, ◌>>=◌}
use fastapi_starter.Ports.{World}
use fastapi_starter.Database.Models.{UserModel}
use fastapi_starter.Database.Session.{Session, has_id}
use fastapi_starter.Users.CreateUser.{UserView}

pub record Page (A : Type 0) : Type 0 where
  pub items : List A
  pub next_cursor : Option String

-- The text of a UUID and its parser, `base64.urlsafe_b64encode` between texts and its inverse; a
-- `none` is their ValueError or TypeError.
pub record Cursors : Type 0 where
  pub uuid_str : Uuid → String
  pub uuid_parse : String → Option Uuid
  pub b64_encode : String → String
  pub b64_decode : String → Option String

-- The columns of a row that the read model selects.
abbrev pub view : UserModel → UserView
view m = record { id = m.id; email = m.email; is_active = m.is_active; created_at = m.created_at }

abbrev pub insert : UserModel → List UserModel → List UserModel
insert m [] = m ∷ []
insert m (x ∷ xs) = if ltb m.id x.id then m ∷ x ∷ xs else x ∷ insert m xs

-- `ORDER BY users.id`
abbrev pub sort_by_id : List UserModel → List UserModel
sort_by_id [] = []
sort_by_id (x ∷ xs) = insert x (sort_by_id xs)

-- `users.id > :id`
abbrev pub beyond : Uuid → UserModel → Bool
beyond i m = ltb i m.id

module _ (codec : Cursors) where
  abbrev pub encode_cursor : Uuid → String
  encode_cursor i = codec.b64_encode (codec.uuid_str i)

  abbrev invalid_cursor : Option Uuid → Result Uuid
  invalid_cursor none = err (domain validation_error "Invalid pagination cursor.")
  invalid_cursor (some i) = ok i

  abbrev parse_text : Option String → Option Uuid
  parse_text none = none
  parse_text (some s) = codec.uuid_parse s

  unfoldable pub decode_cursor : String → Result Uuid
  decode_cursor cursor = invalid_cursor (parse_text (codec.b64_decode cursor))

  -- The WHERE clause that a cursor adds.
  unfoldable pub clause : Option String → Result (UserModel → Bool)
  unfolding decode_cursor
  clause none = ok (λ m. true)
  clause (some cursor) = elim (decode_cursor cursor) [ ok i ↦ ok (beyond i) | err e ↦ err e ]

  abbrev pub last_cursor : List UserModel → Option String
  last_cursor [] = none
  last_cursor (m ∷ []) = some (encode_cursor m.id)
  last_cursor (m ∷ x ∷ xs) = last_cursor (x ∷ xs)

  -- The page that the code makes of the rows of the statement.
  abbrev pub page_of : ℕ → List UserModel → Page UserView
  page_of limit rows =
      let visible = take limit rows in
      record {
        items = map view visible;
        next_cursor = if ltb limit (length rows) then last_cursor visible else none;
      }

  -- `list`, over the rows of the table.
  unfoldable pub list_rows : ℕ → Option String → List UserModel → Result (Page UserView)
  unfolding clause
  list_rows limit cursor rows = elim (clause cursor) [
    | ok test ↦ ok (page_of limit (take (limit + 1) (where_rows test (sort_by_id rows))))
    | err e ↦ err e
  ]

  module _ {S : Type 0} (db : Session S) where
    found : Option UserModel → Exec (World S) UserView
    found none = raise_domain user_not_found
    found (some m) = pure (view m)

    -- `GetUserHandler.execute`
    unfoldable pub get_user : Uuid → Exec (World S) UserView
    unfolding found
    get_user i = do rows ← gets (λ w. db.select_users w.session); found (find (has_id i) rows)

    -- `ListUsersHandler.execute`; the router refuses a limit that is below 1 or above 100.
    unfoldable pub list_users : ℕ → Option String → Exec (World S) (Page UserView)
    unfolding list_rows
    list_users limit cursor = do
      rows ← gets (λ w. db.select_users w.session)
      lift (list_rows (max 1 (min limit 100)) cursor rows)
