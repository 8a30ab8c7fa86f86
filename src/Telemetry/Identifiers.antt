-- ===== src/Telemetry/Identifiers.antt =====
-- The identifiers of a span, as a log event carries them.
use native.Mathlib.Nat.{pow-suc}
use Prim.Native.Nat.{◌/◌, ◌%◌, ◌^◌}
use fastapi_starter.Prelude.{
  ℕ, zero, suc, ◌+◌, ◌-◌, ◌*◌, ◌≤◌, ◌<◌, String, ◌≡◌, refl, true, false, Option, none, some, [],
  ◌∷◌, ◌++◌, All, All-append, ltb, length, Bool-cases, inl, inr, str_eq, str_eq_iff, if◌then◌else◌,
  arith, ◌⊎◌,
}
use fastapi_starter.Telemetry.{
  Text, digit, hex_digits, zeros, format_hex, SpanContext, EventDict, set_key,
  trace_context_processor,
}

-- `int(text, 16)` of lower-case digits, after the digits that make `acc`.
abbrev pub value_of : ℕ → ℕ
value_of c = if ltb c 58 then c - 48 else c - 87

abbrev pub read_hex : ℕ → Text → ℕ
read_hex acc [] = acc
read_hex acc (c ∷ text) = read_hex (acc * 16 + value_of c) text

-- 0-9 or a-f.
abbrev pub IsHexDigit : ℕ → Type 0
IsHexDigit c = ((48 ≤ c) × (c ≤ 57)) ⊎ ((97 ≤ c) × (c ≤ 102))

read_hex-append :
    (acc d : ℕ) (text : Text) → read_hex acc (text ++ d ∷ []) ≡ read_hex acc text * 16 + value_of d
read_hex-append acc d [] = refl
read_hex-append acc d (c ∷ text) = read_hex-append (acc * 16 + value_of c) d text

value_of-digit : (d : ℕ) → d < 16 → value_of (digit d) ≡ d
value_of-digit d small = ground arith

digit-IsHexDigit : (d : ℕ) → d < 16 → IsHexDigit (digit d)
digit-IsHexDigit d small = elim (Bool-cases (ltb d 10)) [
  | inl low ↦ rw low (inl (ground arith))
  | inr high ↦ rw high (inr (ground arith))
]

hex_digits-read : (fuel n : ℕ) → n < fuel → read_hex 0 (hex_digits fuel n) ≡ n
unfolding hex_digits
hex_digits-read zero n enough = absurd (omega arith)
hex_digits-read (suc fuel) n enough = elim (Bool-cases (ltb n 16)) [
  | inl last ↦ rw last (omega (arith, value_of-digit n (ground arith)))
  | inr more ↦
      rw
        (
          more,
          read_hex-append 0 (digit (n % 16)) (hex_digits fuel (n / 16)),
          hex_digits-read fuel (n / 16) (ground arith),
          value_of-digit (n % 16) (omega arith),
        )
        (omega arith)
]

hex_digits-All : (fuel n : ℕ) → All IsHexDigit (hex_digits fuel n)
unfolding hex_digits
hex_digits-All zero n = tt
hex_digits-All (suc fuel) n = elim (Bool-cases (ltb n 16)) [
  | inl last ↦ rw last (digit-IsHexDigit n (ground arith), tt)
  | inr more ↦ rw more (
      All-append IsHexDigit (hex_digits fuel (n / 16)) (digit (n % 16) ∷ [])
        (hex_digits-All fuel (n / 16)) (digit-IsHexDigit (n % 16) (omega arith), tt))
]

length-append_one : (text : Text) (d : ℕ) → length (text ++ d ∷ []) ≡ length text + 1
length-append_one [] d = refl
length-append_one (c ∷ text) d = omega (arith, length-append_one text d)

length-hex_digits : (fuel n width : ℕ) → n < 16 ^ suc width → length (hex_digits fuel n) ≤ suc width
unfolding hex_digits
length-hex_digits zero n width small = omega arith
length-hex_digits (suc fuel) n zero small = elim (Bool-cases (ltb n 16)) [
  | inl last ↦ rw last (omega arith)
  | inr more ↦ absurd (ground arith)
]
length-hex_digits (suc fuel) n (suc width) small =
    let step : 16 ^ suc (suc width) ≡ 16 ^ suc width * 16 = pow-suc 16 (suc width) in
    let shorter = length-hex_digits fuel (n / 16) width (omega arith) in
    elim (Bool-cases (ltb n 16)) [
      | inl last ↦ rw last (omega arith)
      | inr more ↦
          rw more
            (omega (arith, length-append_one (hex_digits fuel (n / 16)) (digit (n % 16)), shorter))
    ]

-- What a text of some width must be to stand for a number.
abbrev pub Shows : ℕ → ℕ → Text → Type 0
Shows width n text = (length text ≡ width) × All IsHexDigit text × (read_hex 0 text ≡ n)

zeros_front :
    (k n : ℕ) (text : Text)
    → All IsHexDigit text
    → read_hex 0 text ≡ n
    → Shows (k + length text) n (zeros k ++ text)
zeros_front zero n text digits reads = (omega arith, digits, reads)
zeros_front (suc k) n text digits reads =
    let (size, rest, value) = zeros_front k n text digits reads in
    (omega arith, (inl (omega arith), rest), value)

format_hex-Shows :
    (width n : ℕ) → n < 16 ^ suc width → Shows (suc width) n (format_hex (suc width) n)
unfolding format_hex
format_hex-Shows width n small =
    let digits = hex_digits (suc n) n in
    let fits = length-hex_digits (suc n) n width small in
    let padded =
      zeros_front (suc width - length digits) n digits (hex_digits-All (suc n) n)
        (hex_digits-read (suc n) n (omega arith)) in
    (omega arith, padded.1, padded.2)

-- `event_dict.get(key)`
abbrev pub get : String → EventDict → Option Text
get key [] = none
get key ((k, v) ∷ rest) = if str_eq k key then some v else get key rest

get-set_key :
    (j k : String) (v : Text) (d : EventDict)
    → get j (set_key k v d) ≡ (if str_eq k j then some v else get j d)
get-set_key j k v [] = refl
get-set_key j k v ((i, w) ∷ d) =
    ground (arith, str_eq_iff k j, str_eq_iff i k, str_eq_iff i j, get-set_key j k v d)

-- In a valid span, whose identifiers have 128 and 64 bits, every event leaves the processor with the
-- trace id as 32 lower-case hexadecimal digits and the span id as 16, from which the identifiers
-- are read back, and with its other keys as they were.
pub trace_ids_read_back :
    (span_context : SpanContext) (event_dict : EventDict) (other : String)
    → span_context.is_valid ≡ true
    → span_context.trace_id < 2 ^ 128
    → span_context.span_id < 2 ^ 64
    → str_eq "trace_id" other ≡ false
    → str_eq "span_id" other ≡ false
    → (trace : Text) × (get "trace_id" (trace_context_processor span_context event_dict)
        ≡ some trace)
      × Shows 32 span_context.trace_id trace
      × (span : Text) × (get "span_id" (trace_context_processor span_context event_dict)
          ≡ some span)
      × Shows 16 span_context.span_id span
      × (get other (trace_context_processor span_context event_dict) ≡ get other event_dict)
unfolding trace_context_processor
trace_ids_read_back c d other valid trace_bits span_bits not_trace not_span =
    let with_trace = set_key "trace_id" (format_hex 32 c.trace_id) d in
    let span = format_hex 16 c.span_id in
    (
      format_hex 32 c.trace_id,
      rw
          (
            valid,
            get-set_key "trace_id" "span_id" span with_trace,
            get-set_key "trace_id" "trace_id" (format_hex 32 c.trace_id) d,
          )
          refl,
      format_hex-Shows 31 c.trace_id trace_bits,
      span,
      rw (valid, get-set_key "span_id" "span_id" span with_trace) refl,
      format_hex-Shows 15 c.span_id span_bits,
      rw
          (
            valid,
            get-set_key other "span_id" span with_trace,
            not_span,
            get-set_key other "trace_id" (format_hex 32 c.trace_id) d,
            not_trace,
          )
          refl,
    )
