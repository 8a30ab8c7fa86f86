-- ===== src/Logging.antt =====
-- app/core/logging.py: what `configure_logging` makes of structlog and of the loggers of the
-- standard library.
pub mod Delivery
use fastapi_starter.Prelude.{
  ℕ, String, Bool, true, false, Option, none, some, List, [], ◌∷◌, ◌++◌, str_eq, if◌then◌else◌,
}
use fastapi_starter.Config.{Environment, local, Settings}

-- The processors of structlog, and the one of app/core/telemetry.
pub data Processor : Type 0 where
  merge_contextvars add_log_level add_logger_name time_stamper stack_info_renderer : Processor
  trace_context_processor console_renderer dict_tracebacks json_renderer : Processor
  wrap_for_formatter remove_processors_meta : Processor

-- `ProcessorFormatter`
pub record Formatter : Type 0 where
  pub foreign_pre_chain : List Processor
  pub processors : List Processor

-- A handler on standard output, or one that the program did not make.
pub data Handler : Type 0 where
  stream_handler : Formatter → Handler
  other_handler : String → Handler

-- The level 0 is NOTSET.
pub record Logger : Type 0 where
  pub level : ℕ
  pub handlers : List Handler
  pub propagate : Bool

pub record Structlog : Type 0 where
  pub processors : List Processor
  pub level : ℕ

-- The loggers by name, without the root; `getLogger` gives the same one for the same name.
pub record Loggers : Type 0 where
  pub structlog : Option Structlog
  pub root : Logger
  pub named : String → Logger

abbrev pub debug : ℕ
debug = 10

abbrev pub info : ℕ
info = 20

unfoldable pub log_level : Settings → ℕ
log_level settings = if settings.app.debug then debug else info

unfoldable pub shared_processors : Settings → List Processor
shared_processors settings =
    let always =
      merge_contextvars ∷ add_log_level ∷ add_logger_name ∷ time_stamper ∷ stack_info_renderer
      ∷ [] in
    if settings.observability.enabled then always ++ trace_context_processor ∷ [] else always

abbrev is_local : Environment → Bool
is_local local = true
is_local _ = false

unfoldable pub tail_processors : Settings → List Processor
tail_processors settings =
    if is_local settings.environment
    then console_renderer ∷ []
    else dict_tracebacks ∷ json_renderer ∷ []

unfoldable pub formatter : Settings → Formatter
formatter settings = record {
  foreign_pre_chain = shared_processors settings;
  processors = remove_processors_meta ∷ tail_processors settings;
}

-- An assignment to attributes of `getLogger(name)`.
abbrev pub set_logger : String → (Logger → Logger) → (String → Logger) → String → Logger
set_logger name change named n = if str_eq n name then change (named n) else named n

abbrev pub routed : Logger → Logger
routed l = record l { handlers = []; propagate = true }

abbrev pub silenced : Logger → Logger
silenced l = record l { handlers = []; propagate = false }

unfoldable pub configure_logging : Settings → Loggers → Loggers
configure_logging settings loggers =
    let level = log_level settings in
    let handler = stream_handler (formatter settings) in
    let uvicorn = set_logger "uvicorn" routed loggers.named in
    let uvicorn_error = set_logger "uvicorn.error" routed uvicorn in
    record {
      structlog = some (record {
        processors = shared_processors settings ++ wrap_for_formatter ∷ [];
        level = level;
      });
      root = record loggers.root { handlers = handler ∷ []; level = level };
      named = set_logger "uvicorn.access" silenced uvicorn_error;
    }
