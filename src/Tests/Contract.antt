-- ===== src/Tests/Contract.antt =====
-- The two repositories on the concrete tables.
use fastapi_starter.Prelude.{◌≡◌, refl, none}
use fastapi_starter.Domain.Errors.{ok}
use fastapi_starter.Domain.Tokens.{RefreshTokenRecord}
use fastapi_starter.Database.Memory.{memory, memory-IsSession}
use fastapi_starter.Database.TokenRepository.{get_by_jti}
use fastapi_starter.Database.TokenRepository.Contract.{add, promised, written, committed}
use fastapi_starter.Database.TokenRepository.Refines.{repository-Refines}
use fastapi_starter.Database.UserRepository.Lookups.{Agree, lookups_agree}
use fastapi_starter.Tests.{env, start, tables-IsReady}

abbrev drawn : RefreshTokenRecord
drawn = record {
  jti = 9;
  user_id = record { value = 2 };
  family_id = 8;
  expires_at = 1000;
  revoked_at = none;
}

repository-Refines_example :
    ((
      (written memory (add drawn) start).0,
      committed memory memory-IsSession (written memory (add drawn) start).1,
    )
      ≡ promised (add drawn) (committed memory memory-IsSession start))
    × (get_by_jti memory 4 start ≡ (ok (committed memory memory-IsSession start 4), start))
unfolding memory-IsSession
repository-Refines_example =
    repository-Refines memory memory-IsSession start refl (add drawn) 4 refl

lookups_agree_example : Agree memory env start (record { value = "ann@x.org" })
unfolding memory-IsSession
lookups_agree_example =
    lookups_agree memory env start (record { value = "ann@x.org" }) memory-IsSession tables-IsReady
