-- ===== src/Auth/Refresh/Revoking.antt =====
-- A refresh only inserts, and writes rows that are revoked.
use fastapi_starter.Prelude.{Option-cases, inl, inr}
use fastapi_starter.Domain.Errors.{domain_of, invalid_token}
use fastapi_starter.Domain.Users.{Instant, User, from_str}
use fastapi_starter.Domain.Tokens.{RefreshTokenRecord, is_set, is_revoked, revoke}
use fastapi_starter.Database.Models.{RefreshTokenModel}
use fastapi_starter.Database.TokenMapper.{apply_to_model}
use fastapi_starter.Database.TokenRepository
use fastapi_starter.Database.TokenRepository.{live_in_family, revoked_now}
use fastapi_starter.Database.UserRepository.{load}
use fastapi_starter.Auth.Refresh.{
  is_refresh, execute, presented, replayed, current, rotate, rotate_active,
}
use fastapi_starter.Prelude.{◌+◌, String, ◌≡◌, refl, true, Option, none, some, arith, leb}
use fastapi_starter.Exec.{resume_then, branch_then, except_validation}
use fastapi_starter.Ports.{TokenPayload, Env, World}
use fastapi_starter.Database.Shared.{Recording, recording}
use fastapi_starter.Database.Shared.Revoking.{
  IsRevoking, add_token-IsRevoking, set_token-IsRevoking, update_tokens-IsRevoking,
  commit_then-IsRevoking,
}

abbrev Safe : World Recording → Type 0
Safe w = IsRevoking w.session

-- The row that `update` writes for a record that was just revoked is revoked.
revoked_row :
    (now : Instant) (r : RefreshTokenRecord) (m : RefreshTokenModel)
    → is_set (apply_to_model (revoke now r) m).revoked_at ≡ true
unfolding revoke apply_to_model
revoked_row now r m = ground arith

module _ (env : Env) where
  replayed-Safe :
      (r : RefreshTokenRecord) (now : Instant) (w : World Recording)
      → Safe w
      → Safe (replayed recording env r now w).1
  unfolding replayed
  replayed-Safe r now w safe =
      commit_then-IsRevoking _ (λ v. refl) _
        (update_tokens-IsRevoking (live_in_family r.family_id) now w.session safe)

  update-Safe :
      (r : RefreshTokenRecord) (now : Instant) (w : World Recording)
      → Safe w
      → Safe (TokenRepository.update recording (revoke now r) w).1
  unfolding TokenRepository.update
  update-Safe r now w safe =
      elim (Option-cases (recording.get_token (revoke now r).jti w.session)) [
        | inl missing ↦ rw missing safe
        | inr (m, found) ↦ rw found (
            set_token-IsRevoking (apply_to_model (revoke now r) m) w.session (revoked_row now r m)
              safe)
      ]

  rotate-Safe :
      (r : RefreshTokenRecord) (now : Instant) (user : User) (w : World Recording)
      → Safe w
      → Safe (rotate recording env r now user w).1
  unfolding rotate
  rotate-Safe r now user w safe =
      let updated = TokenRepository.update recording (revoke now r) w in
      resume_then Safe updated.0 _ updated.1 (update-Safe r now w safe) λ _ _.
        commit_then-IsRevoking _ (λ v. refl) _
          (add_token-IsRevoking _ updated.1.session (update-Safe r now w safe))

  rotate_active-Safe :
      (r : RefreshTokenRecord) (now : Instant) (user : Option User) (w : World Recording)
      → Safe w
      → Safe (rotate_active recording env r now user w).1
  unfolding rotate_active
  rotate_active-Safe r now none w safe = safe
  rotate_active-Safe r now (some user) w safe =
      branch_then Safe user.is_active _ _ w (λ _. rotate-Safe r now user w safe) (λ _. safe)

  current-Safe :
      (payload : TokenPayload) (r : RefreshTokenRecord) (now : Instant) (w : World Recording)
      → Safe w
      → Safe (current recording env payload r now w).1
  unfolding current
  current-Safe payload r now w safe =
      resume_then Safe
        (except_validation (from_str env.uuid_parse payload.subject) (domain_of invalid_token)) _ w
        safe
        λ user_id _.
          resume_then Safe (load env.lower env.repr (recording.get_user user_id.value w.session)) _
            w safe λ user _. rotate_active-Safe r now user w safe

  presented-Safe :
      (payload : TokenPayload) (found : Option RefreshTokenRecord) (w : World Recording)
      → Safe w
      → Safe (presented recording env payload found w).1
  unfolding presented
  presented-Safe payload none w safe = safe
  presented-Safe payload (some r) w safe =
      let w' : World Recording = record w { calls = w.calls + 1 } in
      branch_then Safe (is_revoked r) _ _ w' (λ _. replayed-Safe r _ w' safe)
        λ _.
          branch_then Safe (leb r.expires_at (env.now w.calls)) _ _ w' (λ _. safe)
            (λ _. current-Safe payload r _ w' safe)

  pub execute-Safe :
      (token : String) (w : World Recording) → Safe w → Safe (execute recording env token w).1
  unfolding execute
  execute-Safe token w safe =
      let w' : World Recording = record w { calls = w.calls + 1 } in
      resume_then Safe (env.tokens.decode w.calls token) _ w' safe λ payload _.
        branch_then Safe (is_refresh payload.token_type) _ _ w'
          (λ _. presented-Safe payload _ w' safe) (λ _. safe)
