-- ===== src/Auth/Refresh/Overlap.antt =====
-- A refresh that overlaps with other requests: what it writes lands on rows that it has not seen.
use mathlib.Core.Option
use fastapi_starter.Prelude.{
  ℕ, ◌+◌, ◌≤◌, String, ◌≡◌, refl, ap, ◌∙◌, if◌then◌else◌, true, false, some, List, [], ◌∷◌, ◌++◌,
  find, any, any-append, count, count-append, arith, ◌==◌,
}
use fastapi_starter.Domain.Errors.{ok}
use fastapi_starter.Domain.Users.{Instant, User}
use fastapi_starter.Ports.{TokenPayload, Env}
use fastapi_starter.Database.Models.{UserModel, RefreshTokenModel}
use fastapi_starter.Database.Session.{Contents, has_id, has_jti, Holds, put_token, update_where}
use fastapi_starter.Database.Shared.{Met, recording, apply_all}
use fastapi_starter.Database.Tables.{any-map, some_of_find}
use fastapi_starter.Database.Shared.Laws.{exchanged-Holds}
use fastapi_starter.Database.UserRepository.{loaded_row, load-some}
use fastapi_starter.Database.TokenRepository.{live_in_family, revoked_now}
use fastapi_starter.Families.Persistence.{find-jti_self, find-map_jti, find-append}
use fastapi_starter.Auth.Refresh.{execute}
use fastapi_starter.Auth.Refresh.Rotation.{pair}
use fastapi_starter.Auth.Refresh.Exchange.{
  beginning, IsExchangeable, IsMet, heir, exchange_writes, put_token-append, none_live,
  apart_of_unused, unused-put_token, swept-Holds,
}

-- The tables after a sweep of the family.
abbrev pub after_sweep : List UserModel → List RefreshTokenModel → ℕ → Instant → Met
after_sweep users rows family at = record {
  reach = [];
  users = users;
  tokens = update_where (live_in_family family) (revoked_now at) rows;
}

swept-IsMet :
    (env : Env) (n : ℕ) (m : RefreshTokenModel) (user : User) (users : List UserModel)
    (rows : List RefreshTokenModel) (at : Instant)
    → Holds users rows
    → find (has_jti m.jti) rows ≡ some m
    → any (has_jti (env.uuid4 (n + 1 + 1))) rows ≡ false
    → any (has_id user.id.value) users ≡ true
    → IsMet env (after_sweep users rows m.family_id at) n m user
swept-IsMet env n m user users rows at h found new known =
    let sweep : RefreshTokenModel → RefreshTokenModel =
      λ r. if live_in_family m.family_id r then revoked_now at r else r in
    record {
      holds = swept-Holds m.family_id at rows h;
      old = sweep m;
      there = find-map_jti sweep (λ r. ground arith) m.jti rows ∙ ap (Option.map sweep) found;
      owner = ground arith;
      unused =
          any-map (has_jti (env.uuid4 (n + 1 + 1))) (has_jti (env.uuid4 (n + 1 + 1))) sweep
            (λ r. ground arith) rows
          ∙ new;
      known = known;
    }

module _ (env : Env) (c : Contents) (token : String) (payload : TokenPayload)
    (m : RefreshTokenModel) (row : UserModel) (user : User) where
  -- A refresh that began before a logout or a replay revoked the family, and commits after it: if the
  -- tables were consistent, still had the row of the presented token and its owner, and did not use
  -- the draw for the successor, then the database accepts the commit, the refresh succeeds, and
  -- exactly one token of the family is live.
  pub refresh_outlives_sweep :
      (n : ℕ)
      → IsExchangeable env c n token payload m row user
      → (users : List UserModel) (rows : List RefreshTokenModel) (at : Instant) → Holds users rows
      → find (has_jti m.jti) rows ≡ some m
      → any (has_jti (env.uuid4 (n + 1 + 1))) rows ≡ false
      → any (has_id user.id.value) users ≡ true
      → ((execute recording env token (beginning c (after_sweep users rows m.family_id at) n)).0
          ≡ ok (
              pair recording env
                (beginning c (after_sweep users rows m.family_id at) n)
                token
                payload
                m
                row
                user))
        × (count (live_in_family m.family_id) (
              apply_all
                (execute recording env token
                  (beginning c (after_sweep users rows m.family_id at) n)).1.session.written
                (after_sweep users rows m.family_id at).tokens)
            ≡ 1)
  unfolding apply_all
  refresh_outlives_sweep n e users rows at h found new known =
      let met = after_sweep users rows m.family_id at in
      let at_commit = swept-IsMet env n m user users rows at h found new known in
      let (result, writes) = exchange_writes env c met n token payload m row user e at_commit in
      let none_left = none_live m.family_id at (env.now (n + 1)) m rows in
      (
        result,
        rw
            (
              writes,
              count-append (live_in_family m.family_id)
                  (put_token (revoked_now (env.now (n + 1)) m) met.tokens)
                  (heir env c met n token payload m row user e at_commit ∷ []),
              none_left,
            )
            (ground arith),
      )

  -- What the first of two refreshes meets, which commits on the rows that both have read, and what
  -- the second meets, which commits after it.
  abbrev pub unchanged : Met
  unchanged = record { reach = []; users = c.users; tokens = c.tokens }

  abbrev pub after_first : ℕ → Met
  after_first n = record {
    reach = [];
    users = c.users;
    tokens =
        apply_all (execute recording env token (beginning c unchanged n)).1.session.written
          c.tokens;
  }

  first-IsMet :
      (n : ℕ) → IsExchangeable env c n token payload m row user → IsMet env unchanged n m user
  first-IsMet n e =
      let (key, _) =
        load-some env.lower env.repr row user (loaded_row env.lower env.repr row e.loaded) in
      record {
        holds = e.ready.consistent;
        old = m;
        there = find-jti_self payload.token_id c.tokens e.found;
        owner = refl;
        unused = e.unused;
        known = rw key (some_of_find (has_id row.id) c.users e.known);
      }

  -- The rows after the first commit.
  first_rows :
      (n : ℕ) (e : IsExchangeable env c n token payload m row user)
      → (after_first n).tokens
        ≡ put_token (revoked_now (env.now (n + 1)) m) c.tokens
          ++ heir env c unchanged n token payload m row user e (first-IsMet n e) ∷ []
  unfolding apply_all
  first_rows n e =
      let (result, writes) =
        exchange_writes env c unchanged n token payload m row user e (first-IsMet n e) in
      rw writes refl

  second-IsMet :
      (n k : ℕ)
      → IsExchangeable env c n token payload m row user
      → IsExchangeable env c k token payload m row user
      → (env.uuid4 (n + 1 + 1) == env.uuid4 (k + 1 + 1)) ≡ false
      → IsMet env (after_first n) k m user
  second-IsMet n k e e' draws =
      let self = find-jti_self payload.token_id c.tokens e.found in
      let late = revoked_now (env.now (n + 1)) m in
      let fresh = heir env c unchanged n token payload m row user e (first-IsMet n e) in
      let first = first-IsMet n e in
      let put = put_token late c.tokens in
      let change : RefreshTokenModel → RefreshTokenModel =
        λ r. if r.jti == late.jti then late else r in
      let hit : find (has_jti m.jti) put ≡ some late =
        find-map_jti change (λ r. ground arith) m.jti c.tokens
        ∙ ap (Option.map change) self
        ∙ ground arith in
      rw (first_rows n e) (record {
        holds = exchanged-Holds m late fresh c.tokens first.holds self refl e.unused first.known;
        old = late;
        there = find-append (has_jti m.jti) put (fresh ∷ []) hit;
        owner = refl;
        unused =
            any-append (has_jti (env.uuid4 (k + 1 + 1))) put (fresh ∷ [])
            ∙ rw (unused-put_token (env.uuid4 (k + 1 + 1)) late c.tokens e'.unused, draws) refl;
        known = first.known;
      })

  -- Two refreshes with one token that both begin before either commits, and whose draws for the new
  -- tokens differ, both succeed: the database accepts the second commit after the first, and at least
  -- two tokens of the family are live then.
  pub overlapping_refreshes_fork :
      (n k : ℕ)
      → IsExchangeable env c n token payload m row user
      → IsExchangeable env c k token payload m row user
      → (env.uuid4 (n + 1 + 1) == env.uuid4 (k + 1 + 1)) ≡ false
      → ((execute recording env token (beginning c unchanged n)).0
          ≡ ok (pair recording env (beginning c unchanged n) token payload m row user))
        × ((execute recording env token (beginning c (after_first n) k)).0
            ≡ ok (pair recording env (beginning c (after_first n) k) token payload m row user))
        × (2
            ≤ count (live_in_family m.family_id) (
                apply_all
                  (execute recording env token (beginning c (after_first n) k)).1.session.written
                  (after_first n).tokens))
  unfolding apply_all
  overlapping_refreshes_fork n k e e' draws =
      let second = second-IsMet n k e e' draws in
      let (result, writes) =
        exchange_writes env c unchanged n token payload m row user e (first-IsMet n e) in
      let (result', writes') =
        exchange_writes env c (after_first n) k token payload m row user e' second in
      let apart =
        apart_of_unused (env.uuid4 (n + 1 + 1)) m payload.token_id c.tokens e.found e.unused in
      let first = put_token (revoked_now (env.now (n + 1)) m) c.tokens in
      let late = revoked_now (env.now (k + 1)) m in
      let fresh = heir env c unchanged n token payload m row user e (first-IsMet n e) in
      let fresh' = heir env c (after_first n) k token payload m row user e' second in
      (
        result,
        result',
        rw
            (
              writes',
              first_rows n e,
              put_token-append late first (fresh ∷ []),
              count-append (live_in_family m.family_id)
                  (put_token late first ++ put_token late (fresh ∷ [])) (fresh' ∷ []),
              count-append (live_in_family m.family_id) (put_token late first)
                  (put_token late (fresh ∷ [])),
              apart,
            )
            (ground arith),
      )
