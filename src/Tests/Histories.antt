-- ===== src/Tests/Histories.antt =====
-- Histories of requests on the concrete database.
use fastapi_starter.Prelude.{◌≡◌, refl, List, [], ◌∷◌, str_eq, if◌then◌else◌, arith}
use fastapi_starter.Domain.Errors.{ok, err, domain_of, invalid_token}
use fastapi_starter.Domain.Email.{email, hashed_password}
use fastapi_starter.Ports.{Env, TokenPayload, refresh}
use fastapi_starter.Database.Memory.{memory, memory-IsSession}
use fastapi_starter.Database.UserMapper
use fastapi_starter.Database.TokenMapper
use fastapi_starter.Database.UserRepository.{get_by_email}
use fastapi_starter.Auth.Login
use fastapi_starter.Auth.Login.{LoginCommand}
use fastapi_starter.Auth.Refresh
use fastapi_starter.Users.ChangePassword.{ChangePasswordCommand}
use fastapi_starter.Requests.{Request, login, renew, logout, change_password, serve, serve_all}
use fastapi_starter.Requests.Ended.{logout_is_final, password_change_is_final}
use fastapi_starter.Requests.Begun.{login_then_refresh}
use fastapi_starter.Tests.{env, service, ann, live, start, tables-IsReady, ann_user, ann_loaded}

abbrev presented : TokenPayload
presented = record { subject = "|"; token_type = refresh; token_id = 4 }

-- What is tried after the session has ended.
abbrev later : List Request
later = renew "live" ∷ login (record { email = "ann@x.org"; password = "secret" }) ∷ []

logout_is_final_example :
    (Refresh.execute memory env "live"
      (serve_all memory env later (serve memory env (logout "live") start))).0
    ≡ err (domain_of invalid_token)
unfolding memory-IsSession
logout_is_final_example =
    logout_is_final memory env memory-IsSession later start "live" "live" presented presented live
      live tables-IsReady refl refl refl refl refl refl refl

abbrev new_password : ChangePasswordCommand
new_password = record { user_id = 1; current_password = "secret"; new_password = "longer secret" }

password_change_is_final_example :
    (Refresh.execute memory env "live"
      (serve_all memory env later (serve memory env (change_password new_password) start))).0
    ≡ err (domain_of invalid_token)
unfolding memory memory-IsSession hashed_password
password_change_is_final_example =
    password_change_is_final memory env memory-IsSession later start new_password "live" presented
      ann ann_user live tables-IsReady refl ann_loaded refl refl refl refl refl refl refl

-- The service that reads back the refresh token of the login below.
abbrev issuing : Env
issuing = record env {
  tokens = record service {
    decode = λ n token.
        if str_eq token "refresh"
        then ok (record { subject = "|"; token_type = refresh; token_id = 11 })
        else service.decode n token;
  };
}

abbrev attempt : LoginCommand
attempt = record { email = "ann@x.org"; password = "secret" }

login_then_refresh_example :
    (Refresh.execute memory issuing "refresh" (serve memory issuing (login attempt) start)).0
    ≡ ok (record { access_token = "access"; refresh_token = "refresh" })
unfolding memory-IsSession memory email get_by_email UserMapper.to_domain hashed_password serve
    Login.execute TokenMapper.to_model
login_then_refresh_example =
    login_then_refresh memory issuing memory-IsSession start attempt
      (record { value = "ann@x.org" }) ann ann_user
      (record { subject = "|"; token_type = refresh; token_id = 11 }) tables-IsReady refl refl refl
      refl refl refl refl refl refl refl refl (ground arith) refl
