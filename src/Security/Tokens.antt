-- ===== src/Security/Tokens.antt =====
-- Tokens that the service issues are read back by it, as what they were issued for.
use fastapi_starter.Prelude.{
  ℕ, ◌+◌, ◌*◌, ◌≤◌, ◌<◌, String, ◌≡◌, ◌⊎◌, refl, inl, inr, ltb, ltb→lt, if◌then◌else◌, false,
  Bool-cases, Option, some, [], ◌∷◌, arith,
}
use fastapi_starter.Domain.Errors.{ok, err, Error, domain_of, invalid_token, token_expired}
use fastapi_starter.Domain.Users.{Uuid, Instant}
use fastapi_starter.Ports.{TokenType, access, refresh}
use fastapi_starter.Security.{
  PyJwt, JwtSettings, Claims, Decoded, claims, expired_signature, py_jwt_error, required_claims,
  timestamp, minutes, days, payload, create_access_token, decode, validated,
}

not_ltb→le : (a b : ℕ) → ltb a b ≡ false → b ≤ a
not_ltb→le a b h = ground arith

-- What PyJWT documents of a token that it encoded itself, with all required claims: it is decoded
-- to its payload until the second of `exp`, and raises ExpiredSignatureError from then on.
pub record ReadsBack (jwt : PyJwt) (settings : JwtSettings) (raw : Claims) (iat exp : ℕ)
    : Type 0 where
  pub valid :
      (t : Instant)
      → iat * 1_000_000 ≤ t
      → t < exp * 1_000_000
      → jwt.decode t
          (jwt.encode raw settings.secret settings.algorithm)
          settings.secret
          (settings.algorithm ∷ [])
          settings.issuer
          settings.audience
          required_claims
        ≡ claims raw
  pub expired :
      (t : Instant)
      → exp * 1_000_000 ≤ t
      → jwt.decode t
          (jwt.encode raw settings.secret settings.algorithm)
          settings.secret
          (settings.algorithm ∷ [])
          settings.issuer
          settings.audience
          required_claims
        ≡ expired_signature

module _ (jwt : PyJwt) (settings : JwtSettings) (uuid_str : Uuid → String)
    (uuid_parse : String → Option Uuid) (uuid4 : ℕ → Uuid) (now : ℕ → Instant)
    (round : (u : Uuid) → uuid_parse (uuid_str u) ≡ some u) where
  -- The claims of a payload pass all checks.
  validated-payload :
      (subject : String) (kind : TokenType) (id : Uuid) (at : Instant) (lifetime : ℕ)
      → validated jwt settings uuid_str uuid_parse uuid4 now
          (payload jwt settings uuid_str uuid_parse uuid4 now subject kind id at lifetime)
        ≡ ok (record { subject = subject; token_type = kind; token_id = id })
  unfolding validated payload
  validated-payload subject access id at lifetime = rw round
  validated-payload subject refresh id at lifetime = rw round

  -- The claims of a token issued at the n-th call.
  abbrev pub issued_claims : ℕ → String → TokenType → Uuid → ℕ → Claims
  issued_claims n subject kind id lifetime =
      payload jwt settings uuid_str uuid_parse uuid4 now subject kind id (now n) lifetime

  abbrev pub refresh_lifetime : ℕ
  refresh_lifetime = days settings.refresh_token_expire_days

  abbrev pub access_lifetime : ℕ
  access_lifetime = minutes settings.access_token_expire_minutes

  -- An access token that is read, at its issue or later, before the second of its expiry gives its
  -- subject and the id drawn for it, as an access token; from that second on TokenExpiredError is
  -- raised. PyJWT is assumed to read back what it encoded.
  pub decode-create_access_token :
      (n m : ℕ) (subject : String)
      → ReadsBack jwt settings
          (issued_claims n subject access (uuid4 n) access_lifetime)
          (timestamp (now n))
          (timestamp (now n + access_lifetime))
      → now n ≤ now m
      → decode jwt settings uuid_str uuid_parse uuid4 now m
          (create_access_token jwt settings uuid_str uuid_parse uuid4 now n subject)
        ≡ (if ltb (now m) (timestamp (now n + access_lifetime) * 1_000_000)
            then ok (record { subject = subject; token_type = access; token_id = uuid4 n })
            else err (domain_of token_expired))
  unfolding decode create_access_token
  decode-create_access_token n m subject reads later =
      elim (Bool-cases (ltb (now m) (timestamp (now n + access_lifetime) * 1_000_000))) [
        | inl early ↦
            rw (early, reads.valid (now m) (omega arith) (ltb→lt _ _ early))
              (validated-payload subject access (uuid4 n) (now n) access_lifetime)
        | inr late ↦ rw (late, reads.expired (now m) (not_ltb→le _ _ late))
      ]

-- Whatever PyJWT answers, `decode` raises nothing but InvalidTokenError and TokenExpiredError, and
-- the latter only for an expired signature.
module _ (jwt : PyJwt) (settings : JwtSettings) (uuid_str : Uuid → String)
    (uuid_parse : String → Option Uuid) (uuid4 : ℕ → Uuid) (now : ℕ → Instant) where
  validated_errors :
      (raw : Claims) (e : Error)
      → validated jwt settings uuid_str uuid_parse uuid4 now raw ≡ err e
      → e ≡ domain_of invalid_token
  unfolding validated
  validated_errors raw e h = ground arith

  -- Every token that `decode` refuses is refused with InvalidTokenError, or with TokenExpiredError
  -- where PyJWT reports an expired signature.
  pub decode_errors :
      (n : ℕ) (token : String) (e : Error)
      → decode jwt settings uuid_str uuid_parse uuid4 now n token ≡ err e
      → (e ≡ domain_of invalid_token)
        ⊎ ((e ≡ domain_of token_expired)
            × (jwt.decode
                  (now n)
                  token
                  settings.secret
                  (settings.algorithm ∷ [])
                  settings.issuer
                  settings.audience
                  required_claims
                ≡ expired_signature))
  unfolding decode
  decode_errors n token e h =
      go
        (jwt.decode (now n) token settings.secret (settings.algorithm ∷ []) settings.issuer
          settings.audience required_claims)
        refl
    where
      go :
          (d : Decoded)
          → jwt.decode
              (now n)
              token
              settings.secret
              (settings.algorithm ∷ [])
              settings.issuer
              settings.audience
              required_claims
            ≡ d
          → (e ≡ domain_of invalid_token)
            ⊎ ((e ≡ domain_of token_expired)
                × (jwt.decode
                      (now n)
                      token
                      settings.secret
                      (settings.algorithm ∷ [])
                      settings.issuer
                      settings.audience
                      required_claims
                    ≡ expired_signature))
      go (claims raw) answer = inl (validated_errors raw e (rw answer at h))
      go expired_signature answer = inr (ground arith, answer)
      go py_jwt_error answer = inl (ground arith)
