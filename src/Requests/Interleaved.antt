-- ===== src/Requests/Interleaved.antt =====
-- Requests that overlap: each reads what was committed when it began, and what it writes is committed
-- on the rows of that time, in whichever order the commits come.
use fastapi_starter.Prelude.{ℕ, List, [], ◌∷◌}
use fastapi_starter.Domain.Users.{Uuid}
use fastapi_starter.Ports.{Env, World}
use fastapi_starter.Database.Models.{UserModel, RefreshTokenModel}
use fastapi_starter.Database.Session.{Contents}
use fastapi_starter.Database.Shared.{Write, apply_all, Recording, recording}
use fastapi_starter.Database.Shared.Revoking.{
  IsRevokedIn, IsRevoking, apply_all-IsRevokedIn, close-IsRevoking,
}
use fastapi_starter.Auth.Login.Revoking as LoginRevoking
use fastapi_starter.Auth.Refresh.Revoking as RefreshRevoking
use fastapi_starter.Auth.Refresh.Exchange.{beginning}
use fastapi_starter.Auth.Logout.Revoking as LogoutRevoking
use fastapi_starter.Users.CreateUser.Revoking as CreateUserRevoking
use fastapi_starter.Users.ChangePassword.Revoking as ChangePasswordRevoking
use fastapi_starter.Requests.{Request, register, login, renew, logout, change_password, serve}

-- A request with the rows that it reads and the calls of the outside that came before it, the
-- rows of the tokens when it sends a bulk update, and the users when it commits.
pub record Started : Type 0 where
  pub request : Request
  pub seen : Contents
  pub calls : ℕ
  pub reach : List RefreshTokenModel
  pub users : List UserModel

module _ (env : Env) where
  serve-IsRevoking :
      (request : Request) (w : World Recording)
      → IsRevoking w.session
      → IsRevoking (serve recording env request w).session
  unfolding serve
  serve-IsRevoking (register command) w safe =
      close-IsRevoking _ (CreateUserRevoking.execute-Safe env command w safe)
  serve-IsRevoking (login command) w safe =
      close-IsRevoking _ (LoginRevoking.execute-Safe env command w safe)
  serve-IsRevoking (renew token) w safe =
      close-IsRevoking _ (RefreshRevoking.execute-Safe env token w safe)
  serve-IsRevoking (logout token) w safe =
      close-IsRevoking _ (LogoutRevoking.execute-Safe env token w safe)
  serve-IsRevoking (change_password command) w safe =
      close-IsRevoking _ (ChangePasswordRevoking.execute-Safe env command w safe)

  -- What one overlapping request writes in the end, on the rows that are committed by then; nothing,
  -- if the database refuses its commit.
  unfoldable pub statements : Started → List RefreshTokenModel → List Write
  unfolding serve
  statements s rows =
      (serve recording env s.request (
        beginning s.seen (record { reach = s.reach; users = s.users; tokens = rows })
          s.calls)).session.written

  -- The token rows after the commits of the requests, in this order.
  unfoldable pub interleaved : List Started → List RefreshTokenModel → List RefreshTokenModel
  unfolding apply_all statements
  interleaved [] rows = rows
  interleaved (s ∷ rest) rows = interleaved rest (apply_all (statements s rows) rows)

  -- Whatever requests overlap, whatever each of them has read, and in whichever order they commit, a
  -- refresh token whose row is there and revoked is there and revoked afterwards.
  pub interleaved-IsRevokedIn :
      (overlapping : List Started) (j : Uuid) (rows : List RefreshTokenModel)
      → IsRevokedIn j rows
      → IsRevokedIn j (interleaved overlapping rows)
  unfolding interleaved statements
  interleaved-IsRevokedIn [] j rows revoked = revoked
  interleaved-IsRevokedIn (s ∷ rest) j rows revoked =
      let done =
        serve-IsRevoking s.request
          (beginning s.seen (record { reach = s.reach; users = s.users; tokens = rows }) s.calls)
          (record { waiting = tt; sent = tt }) in
      interleaved-IsRevokedIn rest j (apply_all (statements s rows) rows)
        (apply_all-IsRevokedIn (statements s rows) j rows done.sent revoked)
