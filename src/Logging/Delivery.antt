-- ===== src/Logging/Delivery.antt =====
-- Where the records of the standard library's loggers go once logging is configured.
use mathlib.Core.Path.{fun_ext}
use fastapi_starter.Prelude.{
  ap, ℕ, ◌<◌, ◌≤◌, String, ◌≡◌, ◌⊎◌, inl, inr, refl, true, false, List, [], ◌∷◌, ◌++◌, All, leb,
  ◌==◌, str_eq, if◌then◌else◌, Bool-cases, arith,
}
use fastapi_starter.Config.{Settings}
use fastapi_starter.Logging.{
  Handler, stream_handler, other_handler, Logger, Loggers, set_logger, routed, silenced, formatter,
  configure_logging,
}

-- A logger, its parents by dotted name, and the root.
abbrev pub chain : Loggers → List String → List Logger
chain loggers [] = loggers.root ∷ []
chain loggers (name ∷ parents) = loggers.named name ∷ chain loggers parents

-- `Logger.getEffectiveLevel`
abbrev pub effective_level : List Logger → ℕ
effective_level [] = 0
effective_level (l ∷ parents) = if l.level == 0 then effective_level parents else l.level

-- The loop of `Logger.callHandlers`.
abbrev pub found_handlers : List Logger → List Handler
found_handlers [] = []
found_handlers (l ∷ parents) =
    let above = found_handlers parents in l.handlers ++ (if l.propagate then above else [])

-- Its last resort writes warnings, of level 30 and above, to standard error.
abbrev pub or_last_resort : ℕ → List Handler → List Handler
or_last_resort level [] = if leb 30 level then other_handler "lastResort" ∷ [] else []
or_last_resort level (h ∷ handlers) = h ∷ handlers

-- The handlers that a record of a level reaches; those made here have no level of their own.
abbrev pub handled : List Logger → ℕ → List Handler
handled loggers level =
    if leb (effective_level loggers) level
    then or_last_resort level (found_handlers loggers)
    else []

-- A logger that leaves its records to the root: it is one of those that are rerouted, or it has no
-- handler of its own and propagates.
abbrev pub Defers : Loggers → String → Type 0
Defers loggers name =
    (str_eq name "uvicorn.access" ≡ false)
    × ((str_eq name "uvicorn" ≡ true)
        ⊎ ((str_eq name "uvicorn.error" ≡ true)
            ⊎ (((loggers.named name).handlers ≡ []) × ((loggers.named name).propagate ≡ true))))

module _ (settings : Settings) (loggers : Loggers) where
  abbrev after : Loggers
  after = configure_logging settings loggers

  found_deferred :
      (names : List String)
      → All (Defers loggers) names
      → found_handlers (chain after names) ≡ stream_handler (formatter settings) ∷ []
  unfolding configure_logging
  found_deferred [] deferred = elim (Bool-cases loggers.root.propagate) [
    | inl e ↦ rw e refl
    | inr e ↦ rw e refl
  ]
  found_deferred (name ∷ parents) deferred = ground (arith, found_deferred parents deferred.1)

  access :
      (parents : List String) (level : ℕ)
      → level < 30
      → handled (chain after ("uvicorn.access" ∷ parents)) level ≡ []
  unfolding configure_logging
  access parents level below = ground arith

  -- Once logging is configured, whatever the loggers were before: a record that its logger is
  -- enabled for, on `uvicorn`, `uvicorn.error` or another logger that leaves its records to its
  -- parents, reaches the one handler on standard output and no other, hence once; and one below
  -- WARNING on `uvicorn.access` reaches none.
  pub each_record_once :
      (names parents : List String) (level below : ℕ)
      → All (Defers loggers) names
      → effective_level (chain after names) ≤ level
      → below < 30
      → (handled (chain after names) level ≡ stream_handler (formatter settings) ∷ [])
        × (handled (chain after ("uvicorn.access" ∷ parents)) below ≡ [])
  each_record_once names parents level below deferred enabled unimportant =
      let passes : leb (effective_level (chain after names)) level ≡ true = ground arith in
      (rw (passes, found_deferred names deferred) refl, access parents below unimportant)

abbrev renamed : (String → Logger) → String → Logger
renamed named =
    set_logger "uvicorn.access" silenced
      (set_logger "uvicorn.error" routed (set_logger "uvicorn" routed named))

renamed_twice : (named : String → Logger) → renamed (renamed named) ≡ renamed named
renamed_twice named = fun_ext λ n. ground arith

-- A later configuration leaves nothing of an earlier one.
pub last_configuration_wins :
    (first second : Settings) (loggers : Loggers)
    → configure_logging second (configure_logging first loggers) ≡ configure_logging second loggers
unfolding configure_logging
last_configuration_wins first second loggers =
    ap (λ named. record (configure_logging second loggers) { named = named })
      (renamed_twice loggers.named)
