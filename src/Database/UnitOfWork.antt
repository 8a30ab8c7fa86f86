-- ===== src/Database/UnitOfWork.antt =====
-- app/infrastructure/database/unit_of_work.py.
use Prim.Native.Char.{code}
use fastapi_starter.Prelude.{
  ◌≡◌, String, Bool, true, false, ◌&&◌, ◌||◌, Option, none, some, List, [], ◌∷◌, any, ◌==◌,
}
use fastapi_starter.Domain.Errors.{ok, other, email_already_exists}
use fastapi_starter.Exec.{Exec, pure, raise, raise_domain, branch, ◌>>=◌, ◌>>◌}
use fastapi_starter.Ports.{World, on_session}
use fastapi_starter.Database.Session.{Session, CommitFault, integrity, failure}

unfoldable pub starts_with : String → String → Bool
starts_with String.[] s = true
starts_with (String.◌∷◌ c p) String.[] = false
starts_with (String.◌∷◌ c p) (String.◌∷◌ d s) = code c == code d && starts_with p s

-- `marker in message`
unfoldable pub contains : String → String → Bool
unfolding starts_with
contains marker String.[] = starts_with marker String.[]
contains marker (String.◌∷◌ c s) = starts_with marker (String.◌∷◌ c s) || contains marker s

abbrev pub email_unique_markers : List String
email_unique_markers = "ix_users_email" ∷ "users.email" ∷ []

unfoldable pub names_email : String → Bool
unfolding contains
names_email message = any (λ marker. contains marker message) email_unique_markers

module _ {S : Type 0} (db : Session S) where
  send_commit : Exec (World S) (Option CommitFault)
  send_commit w = let (outcome, s') = db.commit w.session in (ok outcome, record w { session = s' })

  translate : Option CommitFault → Exec (World S) (Unit {0})
  translate none = pure tt
  translate (some (failure name)) = raise (other name)
  translate (some (integrity message)) = do
    on_session db.rollback
    branch (names_email message) (raise_domain email_already_exists)
        (raise (other "IntegrityError"))

  unfoldable pub commit : Exec (World S) (Unit {0})
  unfolding send_commit translate
  commit = do outcome ← send_commit; translate outcome

  unfoldable pub rollback : Exec (World S) (Unit {0})
  rollback = on_session db.rollback

  -- A commit that the database accepts only changes the session.
  pub commit_done :
      (w : World S)
      → (db.commit w.session).0 ≡ none
      → commit w ≡ (ok tt, record w { session = (db.commit w.session).1 })
  unfolding commit
  commit_done w e = rw e
