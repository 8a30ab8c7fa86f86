-- ===== src/Auth/Refresh/Refines.antt =====
-- Every refresh, whatever the token and however it ends, is one step of the token families.
use mathlib.Core.Option
use mathlib.Core.List.{append-nil}
use fastapi_starter.Prelude.{ℕ, ◌+◌, String, ◌≡◌, refl, false, Option, none, some, find, leb, arith}
use fastapi_starter.Domain.Errors.{domain_of, invalid_token}
use fastapi_starter.Domain.Users.{Instant, User, from_str}
use fastapi_starter.Domain.Tokens.{RefreshTokenRecord, revoke, is_revoked}
use fastapi_starter.Exec.{resume_then, branch_then, except_validation, raise_domain}
use fastapi_starter.Ports.{TokenPayload, Env, World}
use fastapi_starter.Database.Models.{RefreshTokenModel}
use fastapi_starter.Database.Session.{Session, IsSession, Contents, IsReady, has_jti}
use fastapi_starter.Database.TokenMapper
use fastapi_starter.Database.TokenMapper.{to_domain}
use fastapi_starter.Database.UserRepository.{load}
use fastapi_starter.Families.{sweep_family, rotate}
use fastapi_starter.Families.Refines.{End, Untouched, Untouched-End, commit_then-End, saved-IsSince}
use fastapi_starter.Accounts.{same}
use fastapi_starter.Families.Persistence.{find-jti_self}
use fastapi_starter.Auth.Refresh
use fastapi_starter.Auth.Refresh.{is_refresh, execute, presented, replayed, current, rotate_active}

-- `revoke` of a record that is not revoked sets the time.
revoke-live :
    (m : RefreshTokenModel) (now : Instant)
    → m.revoked_at ≡ none
    → revoke now (to_domain m) ≡ record (to_domain m) { revoked_at = some now }
unfolding revoke to_domain
revoke-live m now live = ground arith

not_revoked : (m : RefreshTokenModel) → is_revoked (to_domain m) ≡ false → m.revoked_at ≡ none
unfolding is_revoked to_domain
not_revoked m h = ground arith

module _ {S : Type 0} (db : Session S) (env : Env) (h : IsSession db) {before : Contents} (n : ℕ)
    (ready : IsReady before) where
  abbrev Ends : World S → Type 0
  Ends = End db env h n ready

  abbrev Clean : World S → Type 0
  Clean = Untouched db env h n ready

  ends : (w : World S) → Clean w → Ends w
  ends = Untouched-End db env h n ready

  replayed-End :
      (r : RefreshTokenRecord) (now : Instant) (w : World S)
      → Clean w
      → Ends (replayed db env r now w).1
  unfolding replayed
  replayed-End r now w u =
      commit_then-End db env h n ready (raise_domain invalid_token) (λ v. (refl, omega arith)) _
        u.later (rw (h.update_tokens_lem, u.same) (saved-IsSince ready refl refl))
        (rw (h.update_tokens_lem, u.same, ready.no_users) (same (append-nil _)))
        (rw (h.update_tokens_lem, u.same, ready.no_tokens)
          (sweep_family r.family_id now (append-nil _)))

  rotate-End :
      (m : RefreshTokenModel) (now : Instant) (user : User) (w : World S)
      → Clean w
      → find (has_jti m.jti) before.tokens ≡ some m
      → m.revoked_at ≡ none
      → Ends (Refresh.rotate db env (to_domain m) now user w).1
  unfolding Refresh.rotate to_domain TokenMapper.to_model TokenMapper.apply_to_model
  rotate-End m now user w u found live =
      rw (revoke-live m now live, h.get_token_lem, u.same, found)
        (commit_then-End db env h n ready _ (λ v. (refl, omega arith)) _ (omega (arith, u.later))
          (rw (h.add_token_lem, h.set_token_lem, u.same) (saved-IsSince ready refl refl))
          (rw (h.add_token_lem, h.set_token_lem, u.same, ready.no_users) (same (append-nil _)))
          (rw (h.add_token_lem, h.set_token_lem, u.same, ready.no_tokens)
            (rotate m _ now found live refl refl refl)))

  rotate_active-End :
      (m : RefreshTokenModel) (now : Instant) (user : Option User) (w : World S)
      → Clean w
      → find (has_jti m.jti) before.tokens ≡ some m
      → m.revoked_at ≡ none
      → Ends (rotate_active db env (to_domain m) now user w).1
  unfolding rotate_active
  rotate_active-End m now none w u found live = ends w u
  rotate_active-End m now (some user) w u found live =
      branch_then Ends user.is_active _ _ w (λ _. rotate-End m now user w u found live)
        (λ _. ends w u)

  current-End :
      (payload : TokenPayload) (m : RefreshTokenModel) (now : Instant) (w : World S)
      → Clean w
      → find (has_jti m.jti) before.tokens ≡ some m
      → m.revoked_at ≡ none
      → Ends (current db env payload (to_domain m) now w).1
  unfolding current
  current-End payload m now w u found live =
      resume_then Ends
        (except_validation (from_str env.uuid_parse payload.subject) (domain_of invalid_token)) _ w
        (ends w u)
        λ user_id _.
          resume_then Ends (load env.lower env.repr (db.get_user user_id.value w.session)) _ w
            (ends w u) λ user _. rotate_active-End m now user w u found live

  presented-End :
      (payload : TokenPayload) (found : Option RefreshTokenModel) (w : World S)
      → Clean w
      → find (has_jti payload.token_id) before.tokens ≡ found
      → Ends (presented db env payload (Option.map to_domain found) w).1
  unfolding presented
  presented-End payload none w u stored = ends w u
  presented-End payload (some m) w u stored =
      let w' : World S = record w { calls = w.calls + 1 } in
      let u' : Clean w' = record { same = u.same; later = omega (arith, u.later) } in
      branch_then Ends (is_revoked (to_domain m)) _ _ w' (λ _. replayed-End (to_domain m) _ w' u')
        λ live.
          branch_then Ends (leb (to_domain m).expires_at (env.now w.calls)) _ _ w' (λ _. ends w' u')
            λ _.
              current-End payload m _ w' u' (find-jti_self _ before.tokens stored)
                (not_revoked m live)

  pub execute-End : (token : String) (w : World S) → Clean w → Ends (execute db env token w).1
  unfolding execute
  execute-End token w u =
      let w' : World S = record w { calls = w.calls + 1 } in
      let u' : Clean w' = record { same = u.same; later = omega (arith, u.later) } in
      resume_then Ends (env.tokens.decode w.calls token) _ w' (ends w' u') λ payload _.
        branch_then Ends (is_refresh payload.token_type) _ _ w'
          (λ _. rw (h.get_token_lem, u.same) (presented-End payload _ w' u' refl)) (λ _. ends w' u')
