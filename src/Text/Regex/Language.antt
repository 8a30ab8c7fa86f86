-- ===== src/Text/Regex/Language.antt =====
-- What a pattern describes, apart from how `matches` searches for it.
use Prim.Native.Char.{Char, code}
use fastapi_starter.Prelude.{
  ℕ, zero, suc, ◌≡◌, refl, String, Bool, true, List, [], ◌∷◌, any, any-append, arith, Bool-cases,
  inl, inr,
}
use fastapi_starter.Text.Regex.{
  Class, Piece, one, plus, up_to, dollar, end_of_text, rests_plus, rests_up_to, at_end, at_dollar,
  rests, matches,
}

-- One or more characters of a class before the rest of a text.
pub data Run (c : Class) : String → String → Type 0 where
  last : {x : Char} {s : String} → c (code x) ≡ true → Run c (String.◌∷◌ x s) s
  more : {x : Char} {s t : String} → c (code x) ≡ true → Run c s t → Run c (String.◌∷◌ x s) t

-- At most so many.
pub data AtMost (c : Class) : ℕ → String → String → Type 0 where
  stop : {n : ℕ} {s : String} → AtMost c n s s
  step :
      {n : ℕ} {x : Char} {s t : String}
      → c (code x) ≡ true
      → AtMost c n s t
      → AtMost c (suc n) (String.◌∷◌ x s) t

pub data IsEnd : String → Type 0 where
  nothing_left : IsEnd String.[]
  newline_left : {x : Char} → code x ≡ 10 → IsEnd (String.◌∷◌ x String.[])

-- The piece describes the text up to the rest.
pub data Reads : Piece → String → String → Type 0 where
  reads_one :
      {c : Class} {x : Char} {s : String} → c (code x) ≡ true → Reads (one c) (String.◌∷◌ x s) s
  reads_plus : {c : Class} {s t : String} → Run c s t → Reads (plus c) s t
  reads_up_to : {c : Class} {n : ℕ} {s t : String} → AtMost c n s t → Reads (up_to n c) s t
  reads_dollar : {s : String} → IsEnd s → Reads dollar s s
  reads_end : Reads end_of_text String.[] String.[]

-- The pieces, one after another, describe a beginning of the text.
pub data Describes : List Piece → String → Type 0 where
  nothing_more : {s : String} → Describes [] s
  followed_by :
      {p : Piece} {ps : List Piece} {s t : String}
      → Reads p s t
      → Describes ps t
      → Describes (p ∷ ps) s

-- A rest that a piece leaves and that passes a test.
abbrev Leaves : Piece → (String → Bool) → String → Type 0
Leaves p q s = (t : String) × Reads p s t × (q t ≡ true)

rests_plus-Run :
    (c : Class) (q : String → Bool) (s : String)
    → any q (rests_plus c s) ≡ true
    → (t : String) × Run c s t × (q t ≡ true)
unfolding rests_plus
rests_plus-Run c q String.[] h = cc
rests_plus-Run c q (String.◌∷◌ x s) h = elim (Bool-cases (c (code x))) [
  | inr out ↦ absurd (ground (arith, out, h))
  | inl hit ↦ elim (Bool-cases (any q (rests_plus c s))) [
    | inl later ↦ let (t, run, good) = rests_plus-Run c q s later in (t, more hit run, good)
    | inr here ↦ (s, last hit, ground (arith, any-append q (rests_plus c s) (s ∷ [])))
  ]
]

any-rests_plus :
    (c : Class) (q : String → Bool) (s t : String)
    → Run c s t
    → q t ≡ true
    → any q (rests_plus c s) ≡ true
unfolding rests_plus
any-rests_plus c q String.[] t run good = elim run [ ]
any-rests_plus c q (String.◌∷◌ x s) t (last hit) good =
    ground (arith, any-append q (rests_plus c s) (s ∷ []))
any-rests_plus c q (String.◌∷◌ x s) t (more hit run) good =
    ground (arith, any-append q (rests_plus c s) (s ∷ []), any-rests_plus c q s t run good)

rests_up_to-AtMost :
    (c : Class) (q : String → Bool) (n : ℕ) (s : String)
    → any q (rests_up_to c n s) ≡ true
    → (t : String) × AtMost c n s t × (q t ≡ true)
unfolding rests_up_to
rests_up_to-AtMost c q zero s h = (s, stop, ground arith)
rests_up_to-AtMost c q (suc n) String.[] h = (String.[], stop, ground arith)
rests_up_to-AtMost c q (suc n) (String.◌∷◌ x s) h = elim (Bool-cases (c (code x))) [
  | inr out ↦ (String.◌∷◌ x s, stop, ground arith)
  | inl hit ↦ elim (Bool-cases (any q (rests_up_to c n s))) [
    | inl later ↦ let (t, run, good) = rests_up_to-AtMost c q n s later in (t, step hit run, good)
    | inr here ↦ (
      String.◌∷◌ x s,
      stop,
      ground (arith, any-append q (rests_up_to c n s) (String.◌∷◌ x s ∷ [])),
    )
  ]
]

any-rests_up_to :
    (c : Class) (q : String → Bool) (n : ℕ) (s t : String)
    → AtMost c n s t
    → q t ≡ true
    → any q (rests_up_to c n s) ≡ true
unfolding rests_up_to
any-rests_up_to c q zero s t stop good = ground arith
any-rests_up_to c q (suc n) String.[] t stop good = ground arith
any-rests_up_to c q (suc n) (String.◌∷◌ x s) t stop good = elim (Bool-cases (c (code x))) [
  | inl hit ↦ ground (arith, any-append q (rests_up_to c n s) (String.◌∷◌ x s ∷ []))
  | inr out ↦ ground arith
]
any-rests_up_to c q (suc n) (String.◌∷◌ x s) t (step hit run) good = ground (
  arith,
  any-append q (rests_up_to c n s) (String.◌∷◌ x s ∷ []),
  any-rests_up_to c q n s t run good,
)

at_dollar-IsEnd : (s : String) → at_dollar s ≡ true → IsEnd s
unfolding at_dollar at_end
at_dollar-IsEnd String.[] h = nothing_left
at_dollar-IsEnd (String.◌∷◌ x String.[]) h = newline_left (ground arith)
at_dollar-IsEnd (String.◌∷◌ x (String.◌∷◌ y s)) h = absurd (ground (arith, h))

IsEnd-at_dollar : (s : String) → IsEnd s → at_dollar s ≡ true
unfolding at_dollar at_end
IsEnd-at_dollar String.[] nothing_left = refl
IsEnd-at_dollar (String.◌∷◌ x String.[]) (newline_left h) = ground arith
IsEnd-at_dollar (String.◌∷◌ x (String.◌∷◌ y s)) left = elim left [ ]

found : (p : Piece) (q : String → Bool) (s : String) → any q (rests p s) ≡ true → Leaves p q s
unfolding rests at_end
found (one c) q String.[] h = cc
found (one c) q (String.◌∷◌ x s) h = elim (Bool-cases (c (code x))) [
  | inl hit ↦ (s, reads_one hit, ground arith)
  | inr out ↦ absurd (ground (arith, out, h))
]
found (plus c) q s h = let (t, run, good) = rests_plus-Run c q s h in (t, reads_plus run, good)
found (up_to n c) q s h =
    let (t, run, good) = rests_up_to-AtMost c q n s h in (t, reads_up_to run, good)
found dollar q s h = elim (Bool-cases (at_dollar s)) [
  | inl hit ↦ (s, reads_dollar (at_dollar-IsEnd s hit), ground arith)
  | inr out ↦ absurd (ground (arith, out, h))
]
found end_of_text q String.[] h = (String.[], reads_end, ground arith)
found end_of_text q (String.◌∷◌ x s) h = cc

tried :
    (p : Piece) (q : String → Bool) (s t : String)
    → Reads p s t
    → q t ≡ true
    → any q (rests p s) ≡ true
unfolding rests at_end
tried (one c) q String.[] t r good = elim r [ ]
tried (one c) q (String.◌∷◌ x s) t (reads_one hit) good = ground arith
tried (plus c) q s t (reads_plus run) good = any-rests_plus c q s t run good
tried (up_to n c) q s t (reads_up_to run) good = any-rests_up_to c q n s t run good
tried dollar q s t (reads_dollar left) good = ground (arith, IsEnd-at_dollar s left)
tried end_of_text q String.[] t reads_end good = ground arith
tried end_of_text q (String.◌∷◌ x s) t r good = elim r [ ]

-- The search succeeds on every text that the pattern describes.
pub matches_described : (ps : List Piece) (s : String) → Describes ps s → matches ps s ≡ true
unfolding matches
matches_described [] s d = refl
matches_described (p ∷ ps) s (followed_by {t} read d) =
    tried p (matches ps) s t read (matches_described ps t d)

-- And on no other.
pub matches-Describes : (ps : List Piece) (s : String) → matches ps s ≡ true → Describes ps s
unfolding matches
matches-Describes [] s h = nothing_more
matches-Describes (p ∷ ps) s h =
    let (t, read, good) = found p (matches ps) s h in followed_by read (matches-Describes ps t good)
