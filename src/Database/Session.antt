-- ===== src/Database/Session.antt =====
-- SQLAlchemy's `AsyncSession` over the two tables, with `autoflush=False` (session.py): an
-- interface of operations, and the documented behaviour that the repositories rely on.
use Prim.Native.String
use fastapi_starter.Prelude.{
  All, ◌≤◌, String, ◌≡◌, Bool, true, not, ◌&&◌, Option, none, some, List, [], ◌∷◌, ◌++◌, map, any,
  find, ◌==◌, if◌then◌else◌, str_eq,
}
use fastapi_starter.Domain.Users.{Uuid}
use fastapi_starter.Database.Models.{UserModel, RefreshTokenModel}

-- What a session stands for: the rows that its transaction sees, the objects added and not yet
-- flushed, and the committed rows to which a rollback returns.
pub record Contents : Type 0 where
  pub users : List UserModel
  pub tokens : List RefreshTokenModel
  pub new_users : List UserModel
  pub new_tokens : List RefreshTokenModel
  pub saved_users : List UserModel
  pub saved_tokens : List RefreshTokenModel

abbrev pub flushed : Contents → Contents
flushed c = record {
  users = c.users ++ c.new_users;
  tokens = c.tokens ++ c.new_tokens;
  new_users = [];
  new_tokens = [];
  saved_users = c.users ++ c.new_users;
  saved_tokens = c.tokens ++ c.new_tokens;
}

abbrev pub restored : Contents → Contents
restored c = record {
  users = c.saved_users;
  tokens = c.saved_tokens;
  new_users = [];
  new_tokens = [];
  saved_users = c.saved_users;
  saved_tokens = c.saved_tokens;
}

abbrev pub no_clash {ℓ} : {A : Type ℓ} → (A → A → Bool) → List A → Bool
no_clash same [] = true
no_clash same (x ∷ xs) = not (any (same x) xs) && no_clash same xs

abbrev pub same_email : UserModel → UserModel → Bool
same_email a b = str_eq a.email b.email

abbrev pub has_id : Uuid → UserModel → Bool
has_id i m = m.id == i

abbrev pub has_jti : Uuid → RefreshTokenModel → Bool
has_jti j m = m.jti == j

-- The constraints of the tables: `pk_users`, `ix_users_email`, `pk_refresh_tokens`, the foreign key
-- of a token's user, and the lengths of the text columns.
pub record Holds (users : List UserModel) (tokens : List RefreshTokenModel) : Type 0 where
  pub ids : no_clash (λ a b. a.id == b.id) users ≡ true
  pub emails : no_clash same_email users ≡ true
  pub jtis : no_clash (λ a b. a.jti == b.jti) tokens ≡ true
  pub owners : All (λ t. any (has_id t.user_id) users ≡ true) tokens
  pub lengths :
      All (λ u. (String.count u.email ≤ 320) × (String.count u.hashed_password ≤ 255)) users

-- What `commit` raises: an IntegrityError with its message, or an exception of another class.
pub data CommitFault : Type 0 where
  integrity : String → CommitFault
  failure : String → CommitFault

-- `where` and `values` of a bulk UPDATE are a test and a change of a row. `set_user` writes the
-- attributes of the tracked instance with that primary key. `commit` gives what it raises, if
-- it raises.
pub record Session (S : Type 0) : Type 0 where
  pub get_user : Uuid → S → Option UserModel
  pub get_token : Uuid → S → Option RefreshTokenModel
  pub select_users : S → List UserModel
  pub add_user : UserModel → S → S
  pub add_token : RefreshTokenModel → S → S
  pub set_user : UserModel → S → S
  pub set_token : RefreshTokenModel → S → S
  pub update_tokens : (RefreshTokenModel → Bool) → (RefreshTokenModel → RefreshTokenModel) → S → S
  pub commit : S → Option CommitFault × S
  pub rollback : S → S
  pub close : S → S

abbrev pub put_user : UserModel → List UserModel → List UserModel
put_user m = map (λ r. if r.id == m.id then m else r)

abbrev pub put_token : RefreshTokenModel → List RefreshTokenModel → List RefreshTokenModel
put_token m = map (λ r. if r.jti == m.jti then m else r)

abbrev pub update_where :
    (RefreshTokenModel → Bool)
    → (RefreshTokenModel → RefreshTokenModel)
    → List RefreshTokenModel
    → List RefreshTokenModel
update_where test change = map (λ r. if test r then change r else r)

-- The documented behaviour, over the contents of a session.
pub record IsSession {S : Type 0} (db : Session S) : Type 0 where
  pub contents : S → Contents
  pub get_user_lem : (i : Uuid) (s : S) → db.get_user i s ≡ find (has_id i) (contents s).users
  pub get_token_lem : (j : Uuid) (s : S) → db.get_token j s ≡ find (has_jti j) (contents s).tokens
  pub select_users_lem : (s : S) → db.select_users s ≡ (contents s).users
  -- Not visible to a query before the flush.
  pub add_user_lem :
      (m : UserModel) (s : S)
      → contents (db.add_user m s)
        ≡ record (contents s) { new_users = (contents s).new_users ++ m ∷ [] }
  pub add_token_lem :
      (m : RefreshTokenModel) (s : S)
      → contents (db.add_token m s)
        ≡ record (contents s) { new_tokens = (contents s).new_tokens ++ m ∷ [] }
  pub set_user_lem :
      (m : UserModel) (s : S)
      → contents (db.set_user m s) ≡ record (contents s) { users = put_user m (contents s).users }
  pub set_token_lem :
      (m : RefreshTokenModel) (s : S)
      → contents (db.set_token m s)
        ≡ record (contents s) { tokens = put_token m (contents s).tokens }
  pub update_tokens_lem :
      (test : RefreshTokenModel → Bool) (change : RefreshTokenModel → RefreshTokenModel) (s : S)
      → contents (db.update_tokens test change s)
        ≡ record (contents s) { tokens = update_where test change (contents s).tokens }
  -- A commit that raises nothing has stored the contents, and the constraints held.
  pub commit_stores :
      (s : S) → (db.commit s).0 ≡ none → contents (db.commit s).1 ≡ flushed (contents s)
  pub commit_checks :
      (s : S)
      → (db.commit s).0 ≡ none
      → Holds (flushed (contents s)).users (flushed (contents s)).tokens
  -- It raises only where a constraint is violated.
  pub commit_accepts :
      (s : S)
      → Holds (flushed (contents s)).users (flushed (contents s)).tokens
      → (db.commit s).0 ≡ none
  -- After a commit that raised, `rollback` returns to the committed rows.
  pub rollback_lem :
      (s : S) (fault : CommitFault)
      → (db.commit s).0 ≡ some fault
      → contents (db.rollback (db.commit s).1) ≡ restored (contents s)
  -- So does closing the session, which drops what was not committed.
  pub close_failed :
      (s : S) (fault : CommitFault)
      → (db.commit s).0 ≡ some fault
      → contents (db.close (db.commit s).1) ≡ restored (contents s)
  -- At any other time.
  pub close_lem : (s : S) → contents (db.close s) ≡ restored (contents s)

-- Between two requests: nothing is pending, the session sees the committed rows, and they keep
-- the constraints.
pub record IsReady (c : Contents) : Type 0 where
  pub no_users : c.new_users ≡ []
  pub no_tokens : c.new_tokens ≡ []
  pub users_saved : c.saved_users ≡ c.users
  pub tokens_saved : c.saved_tokens ≡ c.tokens
  pub consistent : Holds c.users c.tokens
