-- ===== src/Security.antt =====
-- app/infrastructure/security/jwt_service.py: tokens over PyJWT, which is an interface here.
pub mod Tokens
pub mod Raises
use Prim.Native.Nat.{◌/◌}
use fastapi_starter.Prelude.{
  ℕ, ◌+◌, ◌*◌, ◌≤◌, ◌<◌, String, ◌≡◌, Bool, Option, none, some, List, [], ◌∷◌, str_eq,
  if◌then◌else◌,
}
use fastapi_starter.Domain.Errors.{Result, ok, err, domain_of, invalid_token, token_expired, ◌>>=◌}
use fastapi_starter.Domain.Users.{Uuid, Instant}
use fastapi_starter.Ports.{TokenType, access, refresh, TokenPayload, IssuedToken, TokenService}

-- A value of a decoded claim set: `dict[str, object]`.
pub data Claim : Type 0 where
  text : String → Claim
  number : ℕ → Claim
  other : Claim

abbrev pub Claims : Type 0
Claims = List (String × Claim)

-- `raw.get(key)`
pub get : String → Claims → Option Claim
get key [] = none
get key ((k, v) ∷ claims) = if str_eq k key then some v else get key claims

-- What `jwt.decode` does: it returns the claims, or raises ExpiredSignatureError or another
-- PyJWTError.
pub data Decoded : Type 0 where
  claims : Claims → Decoded
  expired_signature : Decoded
  py_jwt_error : Decoded

pub record JwtSettings : Type 0 where
  pub secret : String
  pub algorithm : String
  pub access_token_expire_minutes : ℕ
  pub refresh_token_expire_days : ℕ
  pub issuer : String
  pub audience : String

-- PyJWT: `encode payload secret algorithm`, and `decode` at an instant with a token, the secret, the
-- algorithms, the issuer, the audience and the required claims.
pub record PyJwt : Type 0 where
  pub encode : Claims → String → String → String
  pub decode : Instant → String → String → List String → String → String → List String → Decoded

abbrev pub required_claims : List String
required_claims = "sub" ∷ "type" ∷ "iat" ∷ "exp" ∷ "jti" ∷ "iss" ∷ "aud" ∷ []

-- `int(t.timestamp())`
abbrev pub timestamp : Instant → ℕ
timestamp t = t / 1_000_000

abbrev pub minutes : ℕ → ℕ
minutes m = m * 60_000_000

abbrev pub days : ℕ → ℕ
days d = d * 86_400_000_000

abbrev pub type_name : TokenType → String
type_name access = "access"
type_name refresh = "refresh"

module _ (jwt : PyJwt) (settings : JwtSettings) (uuid_str : Uuid → String)
    (uuid_parse : String → Option Uuid) (uuid4 : ℕ → Uuid) (now : ℕ → Instant) where
  -- The claims that `_encode` signs.
  unfoldable pub payload : String → TokenType → Uuid → Instant → ℕ → Claims
  payload subject token_type token_id at lifetime =
      ("sub", text subject)
      ∷ ("type", text (type_name token_type))
      ∷ ("jti", text (uuid_str token_id))
      ∷ ("iss", text settings.issuer)
      ∷ ("aud", text settings.audience)
      ∷ ("iat", number (timestamp at))
      ∷ ("exp", number (timestamp (at + lifetime)))
      ∷ []

  encode : ℕ → String → TokenType → Uuid → ℕ → IssuedToken
  encode n subject token_type token_id lifetime = record {
    token =
        jwt.encode (payload subject token_type token_id (now n) lifetime) settings.secret
          settings.algorithm;
    expires_at = now n + lifetime;
  }

  unfoldable pub create_access_token : ℕ → String → String
  unfolding encode
  create_access_token n subject =
      (encode n subject access (uuid4 n) (minutes settings.access_token_expire_minutes)).token

  unfoldable pub create_refresh_token : ℕ → String → Uuid → IssuedToken
  unfolding encode
  create_refresh_token n subject token_id =
      encode n subject refresh token_id (days settings.refresh_token_expire_days)

  -- The checks on the decoded claims, in order.
  as_text : Option Claim → Result String
  as_text (some (text s)) = ok s
  as_text (some (number n)) = err (domain_of invalid_token)
  as_text (some other) = err (domain_of invalid_token)
  as_text none = err (domain_of invalid_token)

  parsed : Option Uuid → Result Uuid
  parsed none = err (domain_of invalid_token)
  parsed (some u) = ok u

  typed : Option Claim → String → Uuid → Result TokenPayload
  typed (some (text t)) subject token_id =
      if str_eq t "access"
      then ok (record { subject = subject; token_type = access; token_id = token_id })
      else if str_eq t "refresh"
      then ok (record { subject = subject; token_type = refresh; token_id = token_id })
      else err (domain_of invalid_token)
  typed (some (number n)) subject token_id = err (domain_of invalid_token)
  typed (some other) subject token_id = err (domain_of invalid_token)
  typed none subject token_id = err (domain_of invalid_token)

  validated : Claims → Result TokenPayload
  unfolding get as_text parsed typed
  validated raw = do
    subject ← as_text (get "sub" raw)
    jti ← as_text (get "jti" raw)
    token_id ← parsed (uuid_parse jti)
    typed (get "type" raw) subject token_id

  outcome : Decoded → Result TokenPayload
  unfolding validated
  outcome (claims raw) = validated raw
  outcome expired_signature = err (domain_of token_expired)
  outcome py_jwt_error = err (domain_of invalid_token)

  unfoldable pub decode : ℕ → String → Result TokenPayload
  unfolding outcome
  decode n token = outcome (
      jwt.decode (now n) token settings.secret (settings.algorithm ∷ []) settings.issuer
        settings.audience required_claims)

  -- The implementation of the port `TokenService`.
  unfoldable pub jwt_token_service : TokenService
  unfolding create_access_token create_refresh_token decode
  jwt_token_service = record {
    create_access_token = create_access_token;
    create_refresh_token = create_refresh_token;
    decode = decode;
  }
