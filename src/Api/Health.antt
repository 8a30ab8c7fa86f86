-- ===== src/Api/Health.antt =====
-- app/api/v1/health/router.py: the two probes.
use fastapi_starter.Prelude.{String, Option, none, some, List, [], ◌∷◌}
use fastapi_starter.Domain.Errors.{other}
use fastapi_starter.Api.Endpoints.{Reply, sent, raised}

abbrev pub Status : Type 0
Status = List (String × String)

unfoldable pub liveness : Reply Status
liveness = sent 200 (("status", "ok") ∷ [])

-- `SELECT 1` on the session of the request gives what it raises, if it raises.
unfoldable pub readiness : Option String → Reply Status
readiness none = sent 200 (("status", "ready") ∷ [])
readiness (some name) = raised (other name)
