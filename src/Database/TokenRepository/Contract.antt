-- ===== src/Database/TokenRepository/Contract.antt =====
-- app/domain/auth/repositories.py: the port of the token records. What a store of records keyed by
-- their ids promises, and the rows of the table seen as one.
use mathlib.Core.Option
use fastapi_starter.Prelude.{List, Bool, not, ◌&&◌, ◌==◌, Option, none, some, find, if◌then◌else◌}
use fastapi_starter.Domain.Errors.{Result, ok, err, domain_of, invalid_token}
use fastapi_starter.Domain.Users.{Uuid, Instant, UserId}
use fastapi_starter.Domain.Tokens.{RefreshTokenRecord, is_set}
use fastapi_starter.Exec.{Exec}
use fastapi_starter.Ports.{World}
use fastapi_starter.Database.Models.{RefreshTokenModel}
use fastapi_starter.Database.Session.{Session, IsSession, flushed, has_jti}
use fastapi_starter.Database.TokenMapper.{to_domain}
use fastapi_starter.Database.TokenRepository
use fastapi_starter.Prelude.{◌≡◌}

-- The operations of the port that write.
pub data TokenWrite : Type 0 where
  add update : RefreshTokenRecord → TokenWrite
  revoke_family : Uuid → Instant → TokenWrite
  revoke_all_for_user : UserId → Instant → TokenWrite

abbrev pub written : {S : Type 0} → Session S → TokenWrite → Exec (World S) (Unit {0})
written db (add r) = TokenRepository.add db r
written db (update r) = TokenRepository.update db r
written db (revoke_family f at) = TokenRepository.revoke_family db f at
written db (revoke_all_for_user u at) = TokenRepository.revoke_all_for_user db u at

abbrev pub Store : Type 0
Store = Uuid → Option RefreshTokenRecord

abbrev pub insert : RefreshTokenRecord → Store → Store
insert r store j = if j == r.jti then some r else store j

-- Ends the records that pass the test, unless they have ended.
abbrev pub end_where : (RefreshTokenRecord → Bool) → Instant → Store → Store
end_where test at store j =
    Option.map
      (λ r. if test r && not (is_set r.revoked_at) then record r { revoked_at = some at } else r)
      (store j)

-- Of a record that is there, an update writes the time of its revocation and nothing else.
abbrev pub rewrite :
    RefreshTokenRecord → Option RefreshTokenRecord → Store → Result (Unit {0}) × Store
rewrite r none store = (err (domain_of invalid_token), store)
rewrite r (some old) store = (ok tt, insert (record old { revoked_at = r.revoked_at }) store)

abbrev pub promised : TokenWrite → Store → Result (Unit {0}) × Store
promised (add r) store = (ok tt, insert r store)
promised (update r) store = rewrite r (store r.jti) store
promised (revoke_family f at) store = (ok tt, end_where (λ r. r.family_id == f) at store)
promised (revoke_all_for_user u at) store =
    (ok tt, end_where (λ r. r.user_id.value == u.value) at store)

-- A record is added under an unused id.
abbrev pub IsUnused : TokenWrite → Store → Type 0
IsUnused (add r) store = store r.jti ≡ none
IsUnused (update r) store = Unit
IsUnused (revoke_family f at) store = Unit
IsUnused (revoke_all_for_user u at) store = Unit

-- The records of the rows of a table, and those that a commit of the session would leave.
abbrev pub records : List RefreshTokenModel → Store
records rows j = Option.map to_domain (find (has_jti j) rows)

abbrev pub committed : {S : Type 0} (db : Session S) → IsSession db → World S → Store
committed db h w = records (flushed (h.contents w.session)).tokens
