-- ===== src/Tests/Answers.antt =====
-- A change of the password over the interface, and what its answer may be.
use fastapi_starter.Prelude.{◌≡◌, refl, true, some, [], ◌⊎◌}
use fastapi_starter.Database.Memory.{memory, memory-IsSession, refusal_text}
use fastapi_starter.Database.UnitOfWork.{names_email}
use fastapi_starter.Database.Faults.{NamesClashes, IsNormal}
use fastapi_starter.Domain.Email.{strip}
use fastapi_starter.Api.Problems.{RequestInfo}
use fastapi_starter.Api.Routes.{documents}
use fastapi_starter.Api.Endpoints.Answers.{Call, change_password, method, path, status_of}
use fastapi_starter.Api.Endpoints.Answers.Documented.{answers_documented}
use fastapi_starter.Tests.{tables, tables-IsReady}
use fastapi_starter.Tests.Tokens.{counters}
use fastapi_starter.Tests.Interface.{bearer, codec, busy, show_text, limit, no_phrase}

memory-NamesClashes : NamesClashes memory memory-IsSession
unfolding memory-IsSession names_email
memory-NamesClashes c text refused apart = rw (refusal_text c text refused apart) refl

stored-IsNormal : IsNormal bearer tables.users
unfolding strip
stored-IsNormal = (refl, (refl, tt))

abbrev put : RequestInfo
put = record { path = "/api/v1/users/me/password"; request_id = some "id-1" }

abbrev changing : Call
changing =
    change_password "bearer" (record { current_password = "secret"; new_password = "longer one" })

answers_documented_example :
    (documents (method changing) (path changing) (
        status_of no_phrase put [] memory bearer counters show_text limit
          (λ s. true)
          codec
          changing
          busy)
      ≡ true)
    ⊎ ((path changing ≡ "/api/v1/users/{user_id}")
        × (status_of no_phrase put [] memory bearer counters show_text limit
              (λ s. true)
              codec
              changing
              busy
            ≡ 404))
unfolding memory-IsSession
answers_documented_example =
    answers_documented no_phrase put [] memory bearer counters show_text limit (λ s. true) codec
      memory-IsSession memory-NamesClashes (λ n token. tt) changing busy tables-IsReady
      stored-IsNormal
