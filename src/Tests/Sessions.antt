-- ===== src/Tests/Sessions.antt =====
-- Runs of the token use cases on the concrete database.
use fastapi_starter.Prelude.{
  if◌then◌else◌, str_eq, ℕ, ◌≡◌, refl, true, none, List, [], ◌∷◌, All, arith,
}
use fastapi_starter.Domain.Errors.{ok, err, domain_of, invalid_token}
use fastapi_starter.Domain.Tokens.{is_set}
use fastapi_starter.Ports.{Env, access, refresh}
use fastapi_starter.Database.Models.{aware, RefreshTokenModel}
use fastapi_starter.Database.Memory.{memory, memory-IsSession}
use fastapi_starter.Database.TokenRepository.{revoked_now}
use fastapi_starter.Families.{NoRepeat}
use fastapi_starter.Families.Refines.{Refines}
use fastapi_starter.Auth.Refresh
use fastapi_starter.Auth.Logout
use fastapi_starter.Auth.Refresh.Replay.{replay_revokes_family}
use fastapi_starter.Auth.Refresh.Rotation.{refresh_rotates}
use fastapi_starter.Auth.Logout.Effects.{logout_revokes_family}
use fastapi_starter.Requests.{Request, login, renew, logout, serve, serve_all}
use fastapi_starter.Requests.History.{serve-Refines, IsSound, serve_all-IsSound}
use fastapi_starter.Tests.{
  service, env, ann, bob, used, live, other_live, tables, start, tables-IsReady, ann_user,
  ann_loaded,
}

no_repeat : (limit : ℕ) → NoRepeat env.uuid4 limit
no_repeat limit m n below below' e = e

abbrev history : List Request
history =
    renew "live"
    ∷ login (record { email = "bob@x.org"; password = "hidden" })
    ∷ renew "used"
    ∷ logout "live"
    ∷ []

start-IsSound : IsSound memory env memory-IsSession start
unfolding memory-IsSession
start-IsSound = record {
  ready = tables-IsReady;
  drawn = ((0, ground arith, refl), ((0, ground arith, refl), ((6, ground arith, refl), tt)));
  one_live = λ f. ground arith;
}

serve_all-IsSound_example : IsSound memory env memory-IsSession (serve_all memory env history start)
serve_all-IsSound_example =
    serve_all-IsSound memory env memory-IsSession history start
      (no_repeat (serve_all memory env history start).calls) start-IsSound

serve-Refines_example :
    Refines env tables 10
      (serve memory env (renew "live") start).session
      (serve memory env (renew "live") start).calls
unfolding memory-IsSession
serve-Refines_example =
    serve-Refines memory env memory-IsSession (renew "live") start tables-IsReady

abbrev replayed_rows : List RefreshTokenModel
replayed_rows = used ∷ revoked_now 11 live ∷ other_live ∷ []

replay_revokes_family_example :
    ((Refresh.execute memory env "used" start).0 ≡ err (domain_of invalid_token))
    × ((memory.close (Refresh.execute memory env "used" start).1.session).tokens ≡ replayed_rows)
    × ((memory.close (Refresh.execute memory env "used" start).1.session).users ≡ ann ∷ bob ∷ [])
    × All
        (λ r. r.family_id ≡ 0 → is_set r.revoked_at ≡ true)
        (memory.close (Refresh.execute memory env "used" start).1.session).tokens
unfolding memory-IsSession
replay_revokes_family_example =
    replay_revokes_family memory env memory-IsSession start "used"
      (record { subject = "|"; token_type = refresh; token_id = 3 }) used (aware 5) tables-IsReady
      refl refl refl refl

logout_revokes_family_example :
    ((Logout.execute memory env "live" start).0 ≡ ok tt)
    × ((memory.close (Logout.execute memory env "live" start).1.session).tokens ≡ replayed_rows)
    × ((memory.close (Logout.execute memory env "live" start).1.session).users ≡ ann ∷ bob ∷ [])
    × All
        (λ r. r.family_id ≡ 0 → is_set r.revoked_at ≡ true)
        (memory.close (Logout.execute memory env "live" start).1.session).tokens
unfolding memory-IsSession
logout_revokes_family_example =
    logout_revokes_family memory env memory-IsSession start "live"
      (record { subject = "|"; token_type = refresh; token_id = 4 }) live tables-IsReady refl refl
      refl

abbrev exchanged_rows : List RefreshTokenModel
exchanged_rows =
    used
    ∷ revoked_now 11 live
    ∷ other_live
    ∷ record { jti = 12; user_id = 1; family_id = 0; expires_at = aware 1013; revoked_at = none }
    ∷ []

refresh_rotates_example :
    ((Refresh.execute memory env "live" start).0
      ≡ ok (record { access_token = "access"; refresh_token = "refresh" }))
    × ((memory.close (Refresh.execute memory env "live" start).1.session).tokens ≡ exchanged_rows)
    × ((memory.close (Refresh.execute memory env "live" start).1.session).users ≡ ann ∷ bob ∷ [])
unfolding memory-IsSession
refresh_rotates_example =
    refresh_rotates memory env start "live"
      (record { subject = "|"; token_type = refresh; token_id = 4 }) live ann ann_user
      memory-IsSession tables-IsReady refl refl refl refl (ground arith) refl refl ann_loaded refl
      refl

-- The service that also knows an access token.
abbrev both_kinds : Env
both_kinds = record env {
  tokens = record service {
    decode = λ n token.
        if str_eq token "access"
        then ok (record { subject = "|"; token_type = access; token_id = 9 })
        else service.decode n token;
  };
}
