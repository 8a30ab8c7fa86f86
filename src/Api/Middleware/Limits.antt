-- ===== src/Api/Middleware/Limits.antt =====
-- Which request ids are taken over, and which bodies are read.
use Prim.Native.Char.{code}
use fastapi_starter.Prelude.{
  ℕ, zero, suc, ◌+◌, ◌≤◌, String, ◌≡◌, refl, Bool, true, false, ◌||◌, ◌&&◌, Option, none, some,
  List, [], ◌∷◌, ◌++◌, any, ltb, arith, if◌then◌else◌, Bool-cases, inl, inr,
}
use fastapi_starter.Text.Regex.{Class, end_of_text, matches, rests, rests_up_to, at_end}
use fastapi_starter.Domain.Errors.{ok, err, http}
use fastapi_starter.Api.Middleware.{
  id_class, request_id_re, resolve_request_id, Incoming, http_request, disconnect, limited_receive,
  read_body,
}

-- Every character is of the class, and there are at most `n` of them.
unfoldable pub short : Class → ℕ → String → Bool
short c n String.[] = true
short c zero (String.◌∷◌ x s) = false
short c (suc n) (String.◌∷◌ x s) = c (code x) && short c n s

any-append {ℓ} :
    {A : Type ℓ} (p : A → Bool) (xs ys : List A) → any p (xs ++ ys) ≡ (any p xs || any p ys)
any-append p [] ys = refl
any-append p (x ∷ xs) ys = ground (arith, any-append p xs ys)

-- The bytes of a body.
abbrev pub total : List Incoming → ℕ
total [] = 0
total (http_request size ∷ messages) = size + total messages
total (disconnect ∷ messages) = total messages

-- The body is read to its end exactly if its bytes, with those already received, are at most the
-- cap; otherwise the read ends in the error 413.
pub read_body_lem :
    (max_bytes : ℕ) (messages : List Incoming) (received : ℕ)
    → received ≤ max_bytes
    → read_body max_bytes messages received ≡ (
        if ltb max_bytes (received + total messages)
        then err (http 413 "Request body too large." [])
        else ok tt)
unfolding read_body limited_receive
read_body_lem max_bytes [] received within = ground arith
read_body_lem max_bytes (disconnect ∷ messages) received within =
    read_body_lem max_bytes messages received within
read_body_lem max_bytes (http_request size ∷ messages) received within =
    elim (Bool-cases (ltb max_bytes (received + size))) [
      | inl over ↦ ground arith
      | inr fits ↦
          let rest = read_body_lem max_bytes messages (received + size) (ground arith) in
          ground arith
    ]

up_to_end :
    (c : Class) (n : ℕ) (s : String)
    → any (matches (end_of_text ∷ [])) (rests_up_to c n s) ≡ short c n s
unfolding matches rests rests_up_to at_end short
up_to_end c zero String.[] = refl
up_to_end c zero (String.◌∷◌ x s) = refl
up_to_end c (suc n) String.[] = refl
up_to_end c (suc n) (String.◌∷◌ x s) = elim (Bool-cases (c (code x))) [
  | inl hit ↦
      rw
        (
          hit,
          any-append (matches (end_of_text ∷ [])) (rests_up_to c n s) (String.◌∷◌ x s ∷ []),
          up_to_end c n s,
        )
        (ground arith)
  | inr miss ↦ rw miss
]

-- An id as the service accepts it: not empty, at most 64 characters, all of the class.
abbrev pub is_id : String → Bool
is_id String.[] = false
is_id (String.◌∷◌ x s) = short id_class 64 (String.◌∷◌ x s)

matches-is_id : (s : String) → matches request_id_re s ≡ is_id s
unfolding matches rests short
matches-is_id String.[] = refl
matches-is_id (String.◌∷◌ x s) = elim (Bool-cases (id_class (code x))) [
  | inl hit ↦ rw (hit, up_to_end id_class 63 s) (ground arith)
  | inr miss ↦ rw miss
]

-- The id of a request is the client's own exactly if that is an acceptable id, and otherwise the
-- generated one.
pub resolve_request_id_lem :
    (generated : String) (raw : Option String)
    → resolve_request_id generated raw
      ≡ elim raw [ none ↦ generated | some id ↦ if is_id id then id else generated ]
unfolding resolve_request_id
resolve_request_id_lem generated none = refl
resolve_request_id_lem generated (some id) = rw (matches-is_id id)
