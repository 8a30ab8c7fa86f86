-- ===== src/Telemetry.antt =====
-- app/core/telemetry: the names that the exporters are given, and the identifiers that a span
-- writes into the events of the log.
pub mod Identifiers
use Prim.Native.Char.{code}
use Prim.Native.String.{◌++◌}
use fastapi_starter.Prelude.{
  ℕ, zero, suc, ◌+◌, ◌-◌, String, Bool, true, false, List, [], ◌∷◌, ◌==◌, ltb, length, str_eq,
  if◌then◌else◌,
}
use Prim.Native.Nat.{◌/◌, ◌%◌}
use mathlib.Core.List
use fastapi_starter.Config.{Settings}

starts_none : ℕ → String → Bool
starts_none x String.[] = x == 47
starts_none x (String.◌∷◌ c s) = false

-- `text.rstrip("/")`
pub rstrip_slash : String → String
unfolding starts_none
rstrip_slash String.[] = String.[]
rstrip_slash (String.◌∷◌ c s) =
    let rest = rstrip_slash s in if starts_none (code c) rest then String.[] else String.◌∷◌ c rest

-- What the providers and exporters of OpenTelemetry are given.
pub record Telemetry : Type 0 where
  pub service_name : String
  pub traces_endpoint : String
  pub metrics_endpoint : String

unfoldable pub configure_telemetry : Settings → Telemetry
unfolding rstrip_slash
configure_telemetry settings =
    let endpoint = rstrip_slash settings.observability.otlp_endpoint in
    record {
      service_name =
          if str_eq settings.observability.service_name ""
          then settings.app.name
          else settings.observability.service_name;
      traces_endpoint = endpoint ++ "/v1/traces";
      metrics_endpoint = endpoint ++ "/v1/metrics";
    }

-- An ASCII text as its code points.
abbrev pub Text : Type 0
Text = List ℕ

abbrev pub digit : ℕ → ℕ
digit d = if ltb d 10 then 48 + d else 87 + d

-- The digits of `format(n, "x")`, with fuel; `suc n` is enough.
unfoldable pub hex_digits : ℕ → ℕ → Text
hex_digits zero n = []
hex_digits (suc fuel) n =
    let more = List.◌++◌ (hex_digits fuel (n / 16)) (digit (n % 16) ∷ []) in
    if ltb n 16 then digit n ∷ [] else more

abbrev pub zeros : ℕ → Text
zeros zero = []
zeros (suc n) = 48 ∷ zeros n

-- `format(n, "0<width>x")`: zeros in front of the digits up to the width.
unfoldable pub format_hex : ℕ → ℕ → Text
unfolding hex_digits
format_hex width n =
    let digits = hex_digits (suc n) n in List.◌++◌ (zeros (width - length digits)) digits

-- `span.get_span_context()`
pub record SpanContext : Type 0 where
  pub is_valid : Bool
  pub trace_id : ℕ
  pub span_id : ℕ

abbrev pub EventDict : Type 0
EventDict = List (String × Text)

-- `event_dict[key] = value`
abbrev pub set_key : String → Text → EventDict → EventDict
set_key key value [] = (key, value) ∷ []
set_key key value ((k, v) ∷ rest) =
    if str_eq k key then (k, value) ∷ rest else (k, v) ∷ set_key key value rest

unfoldable pub trace_context_processor : SpanContext → EventDict → EventDict
unfolding format_hex
trace_context_processor span_context event_dict =
    if span_context.is_valid
    then set_key "span_id" (format_hex 16 span_context.span_id)
        (set_key "trace_id" (format_hex 32 span_context.trace_id) event_dict)
    else event_dict
