-- ===== src/Auth/Refresh/Exchange.antt =====
-- What an exchange of a token needs where requests overlap, of the rows that it reads and of the
-- tables at its commit, and the statements that it sends.
use fastapi_starter.Prelude.{
  ℕ, ◌+◌, ◌<◌, String, ◌≡◌, refl, ◌∙◌, if◌then◌else◌, true, false, Bool-cases, inl, inr, none, some,
  List, [], ◌∷◌, ◌++◌, find, any, count, arith, ◌==◌,
}
use fastapi_starter.Domain.Errors.{ok}
use fastapi_starter.Domain.Users.{Instant, User}
use fastapi_starter.Ports.{refresh, TokenPayload, Env, World}
use fastapi_starter.Database.Models.{UserModel, RefreshTokenModel}
use fastapi_starter.Database.Session.{
  Contents, has_id, has_jti, IsReady, Holds, put_token, update_where,
}
use fastapi_starter.Database.Tables.{Holds-map_tokens, any-map}
use fastapi_starter.Database.Shared.{Met, Recording, begun, recording, update_row, insert_row}
use fastapi_starter.Database.Shared.Laws.{commit_writes, exchange_accepted}
use fastapi_starter.Database.UserMapper
use fastapi_starter.Database.UserMapper.{as_utc}
use fastapi_starter.Database.TokenRepository.{live_in_family, revoked_now}
use fastapi_starter.Families.Persistence.{find-jti_self}
use fastapi_starter.Auth.Refresh.{execute}
use fastapi_starter.Auth.Refresh.Rotation.{successor, pair, rotated, rotation_trace}

-- A request that begins when the given rows are committed, with what it meets later.
abbrev pub beginning : Contents → Met → ℕ → World Recording
beginning c met n = record { session = begun c met; calls = n; hash_runs = 0; dispatched = [] }

-- What must hold at the beginning for a token to be exchanged.
pub record IsExchangeable (env : Env) (c : Contents) (n : ℕ) (token : String)
    (payload : TokenPayload) (m : RefreshTokenModel) (row : UserModel) (user : User) : Type 0 where
  pub ready : IsReady c
  pub decoded : env.tokens.decode n token ≡ ok payload
  pub kind : payload.token_type ≡ refresh
  pub found : find (has_jti payload.token_id) c.tokens ≡ some m
  pub live : m.revoked_at ≡ none
  pub fresh : env.now (n + 1) < as_utc m.expires_at
  pub parsed : env.uuid_parse payload.subject ≡ some row.id
  pub known : find (has_id row.id) c.users ≡ some row
  pub loaded : UserMapper.to_domain env.lower env.repr row ≡ ok user
  pub active : user.is_active ≡ true
  pub unused : any (has_jti (env.uuid4 (n + 1 + 1))) c.tokens ≡ false

-- What must hold at the commit: consistent tables, which still have a row with the key and the owner
-- of the presented token and still have the owner, and in which the draw for its successor is unused.
pub record IsMet (env : Env) (met : Met) (n : ℕ) (m : RefreshTokenModel) (user : User)
    : Type 0 where
  pub holds : Holds met.users met.tokens
  pub old : RefreshTokenModel
  pub there : find (has_jti m.jti) met.tokens ≡ some old
  pub owner : m.user_id ≡ old.user_id
  pub unused : any (has_jti (env.uuid4 (n + 1 + 1))) met.tokens ≡ false
  pub known : any (has_id user.id.value) met.users ≡ true

module _ (env : Env) (c : Contents) (met : Met) (n : ℕ) (token : String) (payload : TokenPayload)
    (m : RefreshTokenModel) (row : UserModel) (user : User)
    (e : IsExchangeable env c n token payload m row user) (at_commit : IsMet env met n m user) where
  abbrev w : World Recording
  w = beginning c met n

  abbrev pub heir : RefreshTokenModel
  heir = successor recording env w token payload m row user

  -- The statements of an exchange.
  pub exchange_writes :
      ((execute recording env token w).0 ≡ ok (pair recording env w token payload m row user))
      × ((execute recording env token w).1.session.written
          ≡ update_row (revoked_now (env.now (n + 1)) m) ∷ insert_row heir ∷ [])
  unfolding recording
  exchange_writes =
      let self = find-jti_self payload.token_id c.tokens e.found in
      let late = revoked_now (env.now (n + 1)) m in
      let (accepted, writes) = commit_writes (rotated recording env w token payload m row user) (
        exchange_accepted met at_commit.old late heir at_commit.holds at_commit.there
          at_commit.owner at_commit.unused at_commit.known) in
      let trace =
        rotation_trace recording env w token payload m row user e.decoded e.kind e.found self e.live
          e.fresh e.parsed e.known e.loaded e.active accepted in
      rw (trace, writes) (refl, refl)

pub put_token-append :
    (m : RefreshTokenModel) (xs ys : List RefreshTokenModel)
    → put_token m (xs ++ ys) ≡ put_token m xs ++ put_token m ys
put_token-append m [] ys = refl
put_token-append m (x ∷ xs) ys = let rest = put_token-append m xs ys in rw rest

-- No row of a swept family is live, whichever revoked row is written over it.
pub none_live :
    (f : ℕ) (at later : Instant) (m : RefreshTokenModel) (rows : List RefreshTokenModel)
    → count
        (live_in_family f)
        (put_token (revoked_now later m) (update_where (live_in_family f) (revoked_now at) rows))
      ≡ 0
none_live f at later m [] = refl
none_live f at later m (r ∷ rows) = ground (arith, none_live f at later m rows)

pub apart_of_unused :
    (j : ℕ) (m : RefreshTokenModel) (i : ℕ) (rows : List RefreshTokenModel)
    → find (has_jti i) rows ≡ some m
    → any (has_jti j) rows ≡ false
    → (j == m.jti) ≡ false
apart_of_unused j m i [] found unused = cc
apart_of_unused j m i (r ∷ rows) found unused = elim (Bool-cases (r.jti == i)) [
  | inl hit ↦
      let same : r ≡ m = ground arith in
      let other : (r.jti == j) ≡ false = ground arith in ground arith
  | inr miss ↦ apart_of_unused j m i rows (ground arith) (ground arith)
]

-- Writing rows again, and ending those of a family, moves no key.
pub unused-put_token :
    (j : ℕ) (m : RefreshTokenModel) (rows : List RefreshTokenModel)
    → any (has_jti j) rows ≡ false
    → any (has_jti j) (put_token m rows) ≡ false
unused-put_token j m rows new =
    any-map (has_jti j) (has_jti j) (λ r. if r.jti == m.jti then m else r) (λ r. ground arith) rows
    ∙ new

pub swept-Holds :
    (f : ℕ) (at : Instant) {users : List UserModel} (rows : List RefreshTokenModel)
    → Holds users rows
    → Holds users (update_where (live_in_family f) (revoked_now at) rows)
swept-Holds f at rows h =
    Holds-map_tokens (λ r. if live_in_family f r then revoked_now at r else r) (λ r. ground arith)
      (λ r. ground arith) h
