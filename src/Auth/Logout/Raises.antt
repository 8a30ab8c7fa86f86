-- ===== src/Auth/Logout/Raises.antt =====
-- What a logout may raise.
use fastapi_starter.Prelude.{String, ◌+◌, Option, none, some}
use fastapi_starter.Domain.Errors.{message}
use fastapi_starter.Exec.{Errs, resume-Errs, branch-Errs}
use fastapi_starter.Ports.{Env, World}
use fastapi_starter.Database.Session.{Session, IsSession}
use fastapi_starter.Domain.Tokens.{RefreshTokenRecord}
use fastapi_starter.Database.Faults.{OfSessions, NamesClashes, DecodeRaises, Apart, commit-Errs}
use fastapi_starter.Auth.Refresh.{is_refresh}
use fastapi_starter.Auth.Logout.{execute, end_session}

module _ {S : Type 0} (db : Session S) (env : Env) (h : IsSession db) (names : NamesClashes db h)
    (decodes : DecodeRaises env) where
  end_session-Errs :
      (found : Option RefreshTokenRecord) (w : World S)
      → Apart db h w.session
      → Errs OfSessions (end_session db env found w).0
  unfolding end_session
  end_session-Errs none w apart = tt
  end_session-Errs (some r) w apart = commit-Errs db h names _ (rw h.update_tokens_lem apart)

  pub execute-Errs :
      (token : String) (w : World S)
      → Apart db h w.session
      → Errs OfSessions (execute db env token w).0
  unfolding execute message
  execute-Errs token w apart =
      let w' : World S = record w { calls = w.calls + 1 } in
      resume-Errs OfSessions (env.tokens.decode w.calls token) _ w' (decodes w.calls token)
        λ payload.
          branch-Errs OfSessions (is_refresh payload.token_type) _ _ w'
            (end_session-Errs _ w' apart) tt
