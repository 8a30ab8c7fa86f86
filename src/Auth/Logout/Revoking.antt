-- ===== src/Auth/Logout/Revoking.antt =====
-- A logout only sends statements that take tokens out of use.
use fastapi_starter.Domain.Tokens.{RefreshTokenRecord}
use fastapi_starter.Database.TokenRepository.{live_in_family}
use fastapi_starter.Auth.Refresh.{is_refresh}
use fastapi_starter.Auth.Logout.{execute, end_session}
use fastapi_starter.Prelude.{◌+◌, String, Option, none, some}
use fastapi_starter.Exec.{resume_then, branch_then}
use fastapi_starter.Ports.{Env, World}
use fastapi_starter.Database.Shared.{Recording, recording}
use fastapi_starter.Database.Shared.Revoking.{
  IsRevoking, update_tokens-IsRevoking, commit-IsRevoking,
}

abbrev Safe : World Recording → Type 0
Safe w = IsRevoking w.session

module _ (env : Env) where
  end_session-Safe :
      (found : Option RefreshTokenRecord) (w : World Recording)
      → Safe w
      → Safe (end_session recording env found w).1
  unfolding end_session
  end_session-Safe none w safe = safe
  end_session-Safe (some r) w safe =
      commit-IsRevoking _
        (update_tokens-IsRevoking (live_in_family r.family_id) (env.now w.calls) w.session safe)

  pub execute-Safe :
      (token : String) (w : World Recording) → Safe w → Safe (execute recording env token w).1
  unfolding execute
  execute-Safe token w safe =
      let w' : World Recording = record w { calls = w.calls + 1 } in
      resume_then Safe (env.tokens.decode w.calls token) _ w' safe λ payload _.
        branch_then Safe (is_refresh payload.token_type) _ _ w' (λ _. end_session-Safe _ w' safe)
          (λ _. safe)
