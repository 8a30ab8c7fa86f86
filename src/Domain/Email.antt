-- ===== src/Domain/Email.antt =====
-- The `Email` and `HashedPassword` value objects of app/domain/users/value_objects.py.
pub mod Shape
use Prim.Native.Char.{code}
use Prim.Native.String.{◌++◌}
use fastapi_starter.Prelude.{
  ℕ, String, Bool, false, not, ◌||◌, List, [], ◌∷◌, ◌==◌, if◌then◌else◌, str_eq,
}
use fastapi_starter.Text.Regex.{Class, Piece, plus, dollar, exactly, matches, is_space}
use fastapi_starter.Domain.Errors.{Result, ok, err, domain, validation_error}

-- `[^@\s]`
unfoldable pub plain : Class
unfolding is_space
plain x = not (x == 64 || is_space x)

-- `^[^@\s]+@[^@\s]+\.[^@\s]+$`
abbrev pub email_re : List Piece
email_re = plus plain ∷ exactly 64 ∷ plus plain ∷ exactly 46 ∷ plus plain ∷ dollar ∷ []

-- `str.strip()`, from the left and from the right.
pub lstrip : String → String
lstrip String.[] = String.[]
lstrip (String.◌∷◌ x s) = if is_space (code x) then lstrip s else String.◌∷◌ x s

snoc_trimmed : ℕ → String → Bool
snoc_trimmed x String.[] = is_space x
snoc_trimmed x _ = false

pub rstrip : String → String
unfolding snoc_trimmed
rstrip String.[] = String.[]
rstrip (String.◌∷◌ x s) =
    let rest = rstrip s in if snoc_trimmed (code x) rest then String.[] else String.◌∷◌ x rest

unfoldable pub strip : String → String
unfolding lstrip rstrip is_space
strip s = rstrip (lstrip s)

pub record Email : Type 0 where
  pub value : String

pub record HashedPassword : Type 0 where
  pub value : String

-- `Email(value)`: `__post_init__`, with the runtime's `str.lower` and `repr` given.
module _ (lower repr : String → String) where
  unfoldable pub email : String → Result Email
  unfolding strip matches plain
  email raw =
      let normalised = lower (strip raw) in
      if matches email_re normalised
      then ok (record { value = normalised })
      else err (domain validation_error ("Invalid email address: " ++ repr raw))

unfoldable pub hashed_password : String → Result HashedPassword
hashed_password value =
    if str_eq value ""
    then err (domain validation_error "Hashed password must not be empty.")
    else ok (record { value = value })
