-- ===== src/Tests.antt =====
-- Concrete inputs: a database with two users and three refresh tokens, and an environment whose
-- answers are computed.
pub mod Sessions
pub mod Accounts
pub mod Tokens
pub mod Interface
pub mod Overlap
pub mod Waiting
pub mod Layers
pub mod Dispatch
pub mod Sound
pub mod Contract
pub mod Addresses
pub mod Container
pub mod Answers
pub mod Starting
pub mod Histories
use Prim.Native.String
use Prim.Native.String.{◌++◌}
use fastapi_starter.Prelude.{
  ℕ, zero, suc, ◌+◌, ◌≡◌, refl, ap, String, true, Option, none, some, List, [], ◌∷◌, str_eq,
  if◌then◌else◌,
}
use fastapi_starter.Domain.Errors.{ok, err, domain_of, invalid_token}
use fastapi_starter.Database.UserMapper.{to_domain}
use fastapi_starter.Domain.Email.{email, hashed_password}
use fastapi_starter.Domain.Users.{Uuid, User}
use fastapi_starter.Ports.{Env, World, TokenService, refresh}
use fastapi_starter.Database.Models.{UserModel, RefreshTokenModel, aware}
use fastapi_starter.Database.Session.{Contents, IsReady}
use fastapi_starter.Database.Memory.{holds_sound}
use fastapi_starter.Requests.{Request}

-- A UUID in unary, and its parser.
abbrev pub show_uuid : Uuid → String
show_uuid zero = ""
show_uuid (suc n) = String.◌∷◌ "|" (show_uuid n)

abbrev pub size : String → ℕ
size String.[] = 0
size (String.◌∷◌ c s) = suc (size s)

abbrev pub parse_uuid : String → Option Uuid
parse_uuid s = some (size s)

pub size-show_uuid : (u : Uuid) → size (show_uuid u) ≡ u
size-show_uuid zero = refl
size-show_uuid (suc n) = ap suc (size-show_uuid n)

pub parse_uuid-show_uuid : (u : Uuid) → parse_uuid (show_uuid u) ≡ some u
parse_uuid-show_uuid u = ap some (size-show_uuid u)

abbrev pub service : TokenService
service = record {
  create_access_token = λ n subject. "access";
  create_refresh_token = λ n subject jti. record { token = "refresh"; expires_at = n + 1000 };
  decode = λ n token.
      if str_eq token "live"
      then ok (record { subject = "|"; token_type = refresh; token_id = 4 })
      else if str_eq token "used"
      then ok (record { subject = "|"; token_type = refresh; token_id = 3 })
      else if str_eq token "unknown"
      then ok (record { subject = "|"; token_type = refresh; token_id = 50 })
      else err (domain_of invalid_token);
}

abbrev pub env : Env
env = record {
  uuid4 = λ n. n;
  now = λ n. n;
  hash = λ n p. "#" ++ p;
  verify = λ p h. str_eq ("#" ++ p) h;
  uuid_str = show_uuid;
  uuid_parse = parse_uuid;
  lower = λ s. s;
  repr = λ s. s;
  tokens = service;
}

abbrev pub ann : UserModel
ann = record {
  id = 1;
  email = "ann@x.org";
  hashed_password = "#secret";
  is_active = true;
  created_at = aware 0;
}

abbrev pub bob : UserModel
bob = record {
  id = 2;
  email = "bob@x.org";
  hashed_password = "#hidden";
  is_active = true;
  created_at = aware 0;
}

-- The first token of Ann's family, its live successor, and Bob's token.
abbrev pub used : RefreshTokenModel
used = record {
  jti = 3;
  user_id = 1;
  family_id = 0;
  expires_at = aware 1000;
  revoked_at = some (aware 5);
}

abbrev pub live : RefreshTokenModel
live = record { jti = 4; user_id = 1; family_id = 0; expires_at = aware 1000; revoked_at = none }

abbrev pub other_live : RefreshTokenModel
other_live = record {
  jti = 7;
  user_id = 2;
  family_id = 6;
  expires_at = aware 1000;
  revoked_at = none;
}

abbrev pub tables : Contents
tables = record {
  users = ann ∷ bob ∷ [];
  tokens = used ∷ live ∷ other_live ∷ [];
  new_users = [];
  new_tokens = [];
  saved_users = ann ∷ bob ∷ [];
  saved_tokens = used ∷ live ∷ other_live ∷ [];
}

abbrev pub start : World Contents
start = record { session = tables; calls = 10; hash_runs = 0; dispatched = [] }

pub tables-IsReady : IsReady tables
tables-IsReady = record {
  no_users = refl;
  no_tokens = refl;
  users_saved = refl;
  tokens_saved = refl;
  consistent = holds_sound (ann ∷ bob ∷ []) (used ∷ live ∷ other_live ∷ []) refl;
}

abbrev pub ann_user : User
ann_user = record {
  id = record { value = 1 };
  email = record { value = "ann@x.org" };
  hashed_password = record { value = "#secret" };
  is_active = true;
  created_at = 0;
  events = [];
}

pub ann_loaded : to_domain env.lower env.repr ann ≡ ok ann_user
unfolding to_domain email hashed_password
ann_loaded = refl
