-- ===== src/Accounts.antt =====
-- The abstract view of the users table: how its rows may change from one request to the next.
use fastapi_starter.Prelude.{String, ◌≡◌, some, List, [], ◌∷◌, ◌++◌, find}
use fastapi_starter.Database.Models.{UserModel}
use fastapi_starter.Database.Session.{has_id, put_user}

-- One request: nothing changes, one account joins, or one account gets another password hash (its
-- address is written again with it).
pub data AccountStep (rows after : List UserModel) : Type 0 where
  same : after ≡ rows → AccountStep rows after
  joined : (new : UserModel) → after ≡ rows ++ new ∷ [] → AccountStep rows after
  rehashed :
      (old : UserModel) (address hash : String)
      → find (has_id old.id) rows ≡ some old
      → after ≡ put_user (record old { email = address; hashed_password = hash }) rows
      → AccountStep rows after
