-- ===== src/Requests.antt =====
-- The service as a client meets it: requests, one after another, each with a session of its own
-- that is closed at its end (app/ioc/providers/database.py). The state is the committed database.
pub mod History
pub mod Ended
pub mod Begun
pub mod Interleaved
use fastapi_starter.Prelude.{String, List, [], ◌∷◌}
use fastapi_starter.Exec.{Exec, ◌>>=◌, pure}
use fastapi_starter.Ports.{Env, World}
use fastapi_starter.Database.Session.{Session}
use fastapi_starter.Auth.Login
use fastapi_starter.Auth.Login.{LoginCommand}
use fastapi_starter.Auth.Refresh
use fastapi_starter.Auth.Logout
use fastapi_starter.Users.CreateUser
use fastapi_starter.Users.CreateUser.{CreateUserCommand}
use fastapi_starter.Users.ChangePassword
use fastapi_starter.Users.ChangePassword.{ChangePasswordCommand}

-- The requests that change the database.
pub data Request : Type 0 where
  register : CreateUserCommand → Request
  login : LoginCommand → Request
  renew : String → Request
  logout : String → Request
  change_password : ChangePasswordCommand → Request

module _ {S : Type 0} (db : Session S) (env : Env) where
  -- The state in which a handler ends, whether it returns or raises.
  run : Request → World S → World S
  run (register command) w = (CreateUser.execute db env command w).1
  run (login command) w = (Login.execute db env command w).1
  run (renew token) w = (Refresh.execute db env token w).1
  run (logout token) w = (Logout.execute db env token w).1
  run (change_password command) w = (ChangePassword.execute db env command w).1

  -- The session is closed at the end of the request's scope.
  unfoldable pub close_scope : World S → World S
  close_scope w = record w { session = db.close w.session }

  unfoldable pub serve : Request → World S → World S
  unfolding run close_scope
  serve request w = close_scope (run request w)

  unfoldable pub serve_all : List Request → World S → World S
  unfolding serve
  serve_all [] w = w
  serve_all (request ∷ rest) w = serve_all rest (serve request w)
