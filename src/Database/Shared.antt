-- ===== src/Database/Shared.antt =====
-- Requests that overlap on one database. Each has a session of its own, which reads the rows that
-- were committed when it began. With `autoflush=False` (session.py) the rows that it added or changed
-- reach the tables at its commit, as the other requests have left them by then; its bulk updates are
-- sent at once by `session.execute` (refresh_token_repository.py), so they reach only rows that were
-- committed at that time, which stay locked until the commit.
pub mod Laws
pub mod Revoking
use fastapi_starter.Prelude.{
  Bool, true, false, ◌&&◌, Option, none, some, List, [], ◌∷◌, ◌++◌, any, if◌then◌else◌,
}
use fastapi_starter.Database.Models.{UserModel, RefreshTokenModel}
use fastapi_starter.Database.Session.{
  Session, Contents, CommitFault, integrity, failure, flushed, has_id, has_jti, put_user, put_token,
  update_where,
}
use fastapi_starter.Database.Memory.{memory, holds, violation}

-- The statements of a transaction.
pub data Write : Type 0 where
  insert_user : UserModel → Write
  update_user : UserModel → Write
  insert_row : RefreshTokenModel → Write
  update_row : RefreshTokenModel → Write
  update_rows : (RefreshTokenModel → Bool) → (RefreshTokenModel → RefreshTokenModel) → Write

-- What they make of the rows of the tokens, and of those of the users.
unfoldable pub apply : Write → List RefreshTokenModel → List RefreshTokenModel
apply (insert_user m) rows = rows
apply (update_user m) rows = rows
apply (insert_row m) rows = rows ++ m ∷ []
apply (update_row m) rows = put_token m rows
apply (update_rows test change) rows = update_where test change rows

unfoldable pub apply_all : List Write → List RefreshTokenModel → List RefreshTokenModel
unfolding apply
apply_all [] rows = rows
apply_all (write ∷ writes) rows = apply_all writes (apply write rows)

abbrev pub apply_users : List Write → List UserModel → List UserModel
apply_users [] users = users
apply_users (insert_user m ∷ writes) users = apply_users writes (users ++ m ∷ [])
apply_users (update_user m ∷ writes) users = apply_users writes (put_user m users)
apply_users (write ∷ writes) users = apply_users writes users

-- What a request meets: the rows of the tokens that are committed when it sends a bulk update, and
-- the two tables as they are committed when it commits.
pub record Met : Type 0 where
  pub reach : List RefreshTokenModel
  pub users : List UserModel
  pub tokens : List RefreshTokenModel

-- Every row that is updated by its key is still there.
abbrev pub all_there : Met → List Write → Bool
all_there met [] = true
all_there met (update_row m ∷ writes) = any (has_jti m.jti) met.tokens && all_there met writes
all_there met (update_user m ∷ writes) = any (has_id m.id) met.users && all_there met writes
all_there met (write ∷ writes) = all_there met writes

-- What the commit raises: SQLAlchemy's StaleDataError where the UPDATE of a row matches none, and the
-- database's IntegrityError where the tables would not keep the constraints.
unfoldable pub refusal : Met → List Write → Option CommitFault
unfolding apply_all
refusal met writes =
    if all_there met writes
    then (if holds (apply_users writes met.users) (apply_all writes met.tokens)
        then none
        else some (integrity (violation (apply_users writes met.users))))
    else some (failure "StaleDataError")

-- A session with the statements that it has not committed and those that it has.
pub record Recording : Type 0 where
  pub inner : Contents
  pub met : Met
  pub pending : List Write
  pub written : List Write

abbrev pub begun : Contents → Met → Recording
begun c met = record { inner = c; met = met; pending = []; written = [] }

abbrev pub settled : Recording → Option CommitFault → Option CommitFault × Recording
settled s none =
    (none, record s { inner = flushed s.inner; pending = []; written = s.written ++ s.pending })
settled s (some fault) = (some fault, s)

unfoldable pub recording : Session Recording
unfolding memory refusal
recording = record {
  get_user = λ i s. memory.get_user i s.inner;
  get_token = λ j s. memory.get_token j s.inner;
  select_users = λ s. memory.select_users s.inner;
  add_user = λ m s. record s {
    inner = memory.add_user m s.inner;
    pending = s.pending ++ insert_user m ∷ [];
  };
  add_token = λ m s. record s {
    inner = memory.add_token m s.inner;
    pending = s.pending ++ insert_row m ∷ [];
  };
  set_user = λ m s. record s {
    inner = memory.set_user m s.inner;
    pending = s.pending ++ update_user m ∷ [];
  };
  set_token = λ m s. record s {
    inner = memory.set_token m s.inner;
    pending = s.pending ++ update_row m ∷ [];
  };
  update_tokens = λ test change s. record s {
    inner = memory.update_tokens test change s.inner;
    pending = s.pending ++ update_rows (λ m. test m && any (has_jti m.jti) s.met.reach) change ∷ [];
  };
  commit = λ s. settled s (refusal s.met s.pending);
  rollback = λ s. record s { inner = memory.rollback s.inner; pending = [] };
  close = λ s. record s { inner = memory.close s.inner; pending = [] };
}
