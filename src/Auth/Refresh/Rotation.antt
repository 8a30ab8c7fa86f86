-- ===== src/Auth/Refresh/Rotation.antt =====
-- A live refresh token is exchanged.
use mathlib.Core.List.{append-nil}
use fastapi_starter.Prelude.{
  ◌+◌, ◌<◌, String, ◌≡◌, refl, ◌∙◌, true, false, none, some, List, [], ◌∷◌, ◌++◌, find, any, arith,
  ◌==◌, if◌then◌else◌,
}
use fastapi_starter.Domain.Errors.{ok}
use fastapi_starter.Domain.Users.{Instant, User, from_str}
use fastapi_starter.Ports.{refresh, TokenPayload, Env, World}
use fastapi_starter.Database.Models.{aware, UserModel, RefreshTokenModel}
use fastapi_starter.Database.Session.{
  Session, IsSession, has_id, has_jti, IsReady, Holds, put_token,
}
use fastapi_starter.Database.Tables.{Holds-put_token, Holds-add_token, any-map, some_of_find}
use fastapi_starter.Database.UserMapper
use fastapi_starter.Database.UserMapper.{as_utc}
use fastapi_starter.Database.UserRepository.{loaded_row, load-some}
use fastapi_starter.Families.Persistence.{find-jti_self}
use fastapi_starter.Database.TokenRepository.{revoked_now}
use fastapi_starter.Database.TokenMapper
use fastapi_starter.Auth.Login.{TokenPair}
use fastapi_starter.Auth.Refresh.{execute}

module _ {S : Type 0} (db : Session S) (env : Env) (w : World S) (token : String)
    (payload : TokenPayload) (m : RefreshTokenModel) (row : UserModel) (user : User) where
  -- The instants and the draws of the exchange, by the number of the call.
  abbrev pub exchanged_at : Instant
  exchanged_at = env.now (w.calls + 1)

  abbrev pub successor : RefreshTokenModel
  successor = record {
    jti = env.uuid4 (w.calls + 1 + 1);
    user_id = user.id.value;
    family_id = m.family_id;
    expires_at =
        aware
          (env.tokens.create_refresh_token (w.calls + 1 + 1 + 1) (env.uuid_str user.id.value)
            (env.uuid4 (w.calls + 1 + 1))).expires_at;
    revoked_at = none;
  }

  abbrev pub rotated : S
  rotated = db.add_token successor (db.set_token (revoked_now exchanged_at m) w.session)

  abbrev pub pair : TokenPair
  pair = record {
    access_token =
        env.tokens.create_access_token (w.calls + 1 + 1 + 1 + 1) (env.uuid_str user.id.value);
    refresh_token =
        (env.tokens.create_refresh_token (w.calls + 1 + 1 + 1) (env.uuid_str user.id.value)
          (env.uuid4 (w.calls + 1 + 1))).token;
  }

  pub rotation_trace :
      env.tokens.decode w.calls token ≡ ok payload
      → payload.token_type ≡ refresh
      → db.get_token payload.token_id w.session ≡ some m
      → db.get_token m.jti w.session ≡ some m
      → m.revoked_at ≡ none
      → exchanged_at < as_utc m.expires_at
      → env.uuid_parse payload.subject ≡ some row.id
      → db.get_user row.id w.session ≡ some row
      → UserMapper.to_domain env.lower env.repr row ≡ ok user
      → user.is_active ≡ true
      → (db.commit rotated).0 ≡ none
      → execute db env token w ≡ (
        ok pair,
        record w { session = (db.commit rotated).1; calls = w.calls + 1 + 1 + 1 + 1 + 1 },
      )
  unfolding execute TokenMapper.to_domain TokenMapper.to_model TokenMapper.apply_to_model from_str
  rotation_trace decoded kind stored again live fresh parsed known loaded active accepted =
      ground arith

  module _ (h : IsSession db) where
    abbrev rows : List RefreshTokenModel
    rows = (h.contents w.session).tokens

    abbrev pub rotated_rows : List RefreshTokenModel
    rotated_rows = put_token (revoked_now exchanged_at m) rows ++ successor ∷ []

    pub rotated-Holds :
        IsReady (h.contents w.session)
        → find (has_id row.id) (h.contents w.session).users ≡ some row
        → user.id.value ≡ row.id
        → any (has_jti (env.uuid4 (w.calls + 1 + 1))) rows ≡ false
        → find (has_jti m.jti) rows ≡ some m
        → Holds (h.contents w.session).users rotated_rows
    rotated-Holds ready known key new found =
        Holds-add_token successor
          (any-map (has_jti (env.uuid4 (w.calls + 1 + 1))) (has_jti (env.uuid4 (w.calls + 1 + 1)))
              (λ r. if r.jti == m.jti then revoked_now exchanged_at m else r) (λ r. ground arith)
              rows
            ∙ new)
          (rw key (some_of_find (has_id row.id) _ known))
          (Holds-put_token m (revoked_now exchanged_at m) found refl ready.consistent)

    pub rotated_accepted :
        IsReady (h.contents w.session)
        → Holds (h.contents w.session).users rotated_rows
        → (db.commit rotated).0 ≡ none
    rotated_accepted ready good =
        h.commit_accepts rotated
          (rw (h.add_token_lem, h.set_token_lem, ready.no_users, ready.no_tokens, append-nil) good)

    -- A stored, live, unexpired refresh token of an active user is exchanged, if the draw of
    -- `uuid4` for the new one is not in use: the client gets a new pair; in the committed rows the
    -- presented token is revoked and one live successor is in its family; all else is unchanged.
    pub refresh_rotates :
        IsReady (h.contents w.session)
        → env.tokens.decode w.calls token ≡ ok payload
        → payload.token_type ≡ refresh
        → find (has_jti payload.token_id) rows ≡ some m
        → m.revoked_at ≡ none
        → exchanged_at < as_utc m.expires_at
        → env.uuid_parse payload.subject ≡ some row.id
        → find (has_id row.id) (h.contents w.session).users ≡ some row
        → UserMapper.to_domain env.lower env.repr row ≡ ok user
        → user.is_active ≡ true
        → any (has_jti (env.uuid4 (w.calls + 1 + 1))) rows ≡ false
        → ((execute db env token w).0 ≡ ok pair)
          × ((h.contents (db.close (execute db env token w).1.session)).tokens ≡ rotated_rows)
          × ((h.contents (db.close (execute db env token w).1.session)).users
              ≡ (h.contents w.session).users)
    refresh_rotates ready decoded kind found live fresh parsed known loaded active new =
        let self = find-jti_self payload.token_id rows found in
        let (key, _) =
          load-some env.lower env.repr row user (loaded_row env.lower env.repr row loaded) in
        let accepted = rotated_accepted ready (rotated-Holds ready known key new self) in
        let trace =
          rotation_trace decoded kind (h.get_token_lem payload.token_id w.session ∙ found)
            (h.get_token_lem m.jti w.session ∙ self) live fresh parsed
            (h.get_user_lem row.id w.session ∙ known) loaded active accepted in
        rw
          (
            trace,
            h.close_lem,
            h.commit_stores rotated accepted,
            h.add_token_lem,
            h.set_token_lem,
            ready.no_users,
            ready.no_tokens,
            append-nil,
          )
          (refl, refl, refl)
