-- ===== src/Auth/Logout/Refines.antt =====
-- Every logout is one step of the token families.
use mathlib.Core.List.{append-nil}
use fastapi_starter.Prelude.{ℕ, ◌+◌, String, refl, Option, none, some, arith}
use fastapi_starter.Domain.Tokens.{RefreshTokenRecord}
use fastapi_starter.Exec.{resume_then, branch_then}
use fastapi_starter.Ports.{Env, World}
use fastapi_starter.Database.Session.{Session, IsSession, Contents, IsReady}
use fastapi_starter.Families.{sweep_family}
use fastapi_starter.Families.Refines.{End, Untouched, Untouched-End, commit-End, saved-IsSince}
use fastapi_starter.Accounts.{same}
use fastapi_starter.Auth.Refresh.{is_refresh}
use fastapi_starter.Auth.Logout.{execute, end_session}

module _ {S : Type 0} (db : Session S) (env : Env) (h : IsSession db) {before : Contents} (n : ℕ)
    (ready : IsReady before) where
  abbrev Ends : World S → Type 0
  Ends = End db env h n ready

  abbrev Clean : World S → Type 0
  Clean = Untouched db env h n ready

  ends : (w : World S) → Clean w → Ends w
  ends = Untouched-End db env h n ready

  end_session-End :
      (found : Option RefreshTokenRecord) (w : World S)
      → Clean w
      → Ends (end_session db env found w).1
  unfolding end_session
  end_session-End none w u = ends w u
  end_session-End (some r) w u =
      commit-End db env h n ready _ (omega (arith, u.later))
        (rw (h.update_tokens_lem, u.same) (saved-IsSince ready refl refl))
        (rw (h.update_tokens_lem, u.same, ready.no_users) (same (append-nil _)))
        (rw (h.update_tokens_lem, u.same, ready.no_tokens)
          (sweep_family r.family_id (env.now w.calls) (append-nil _)))

  pub execute-End : (token : String) (w : World S) → Clean w → Ends (execute db env token w).1
  unfolding execute
  execute-End token w u =
      let w' : World S = record w { calls = w.calls + 1 } in
      let u' : Clean w' = record { same = u.same; later = omega (arith, u.later) } in
      resume_then Ends (env.tokens.decode w.calls token) _ w' (ends w' u') λ payload _.
        branch_then Ends (is_refresh payload.token_type) _ _ w' (λ _. end_session-End _ w' u')
          (λ _. ends w' u')
