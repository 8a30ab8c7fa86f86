-- ===== src/Text/Regex.antt =====
-- The fragment of Python's `re` that the program's patterns use: character classes, literals, `+`,
-- `{lo,hi}`, `$`, matched by backtracking; `match` anchors at the start, `fullmatch` at both ends.
pub mod Language
use Prim.Native.Char.{code}
use fastapi_starter.Prelude.{
  ℕ, zero, suc, String, Bool, true, false, ◌&&◌, ◌||◌, List, [], ◌∷◌, ◌++◌, any, ◌==◌, leb,
  if◌then◌else◌,
}

abbrev pub Class : Type 0
Class = ℕ → Bool

pub data Piece : Type 0 where
  -- one character of the class
  one : Class → Piece
  -- `[class]+`
  plus : Class → Piece
  -- at most n characters of the class
  up_to : ℕ → Class → Piece
  -- `$`: the end of the text, or a newline that ends it
  dollar : Piece
  -- the end of the text, which `fullmatch` demands
  end_of_text : Piece

-- The texts that may remain after one or more characters of the class, the longest match first.
unfoldable pub rests_plus : Class → String → List String
rests_plus c String.[] = []
rests_plus c (String.◌∷◌ x s) = if c (code x) then rests_plus c s ++ s ∷ [] else []

unfoldable pub rests_up_to : Class → ℕ → String → List String
rests_up_to c zero s = s ∷ []
rests_up_to c (suc n) String.[] = String.[] ∷ []
rests_up_to c (suc n) (String.◌∷◌ x s) =
    if c (code x) then rests_up_to c n s ++ String.◌∷◌ x s ∷ [] else String.◌∷◌ x s ∷ []

unfoldable pub at_end : String → Bool
at_end String.[] = true
at_end _ = false

unfoldable pub at_dollar : String → Bool
at_dollar String.[] = true
at_dollar (String.◌∷◌ x s) = code x == 10 && at_end s

-- The texts that may remain after the piece.
unfoldable pub rests : Piece → String → List String
rests (one c) String.[] = []
rests (one c) (String.◌∷◌ x s) = if c (code x) then s ∷ [] else []
rests (plus c) s = rests_plus c s
rests (up_to n c) s = rests_up_to c n s
rests dollar s = if at_dollar s then s ∷ [] else []
rests end_of_text s = if at_end s then s ∷ [] else []

unfoldable pub matches : List Piece → String → Bool
unfolding rests rests_plus rests_up_to at_dollar at_end
matches [] s = true
matches (p ∷ ps) s = any (matches ps) (rests p s)

abbrev pub exactly : ℕ → Piece
exactly k = one (λ x. x == k)

-- `\s` of a text pattern, and the characters that `str.strip` drops: those of `str.isspace`.
unfoldable pub is_space : ℕ → Bool
is_space x =
    leb 9 x && leb x 13
    || leb 28 x && leb x 32
    || x == 133
    || x == 160
    || x == 5760
    || leb 8192 x && leb x 8202
    || x == 8232
    || x == 8233
    || x == 8239
    || x == 8287
    || x == 12288
