-- ===== src/Domain/Email/Shape.antt =====
-- The form of the addresses that `Email` is about, told apart from the regular expression.
use Prim.Native.Char.{Char, code}
use Prim.Native.String.{◌++◌}
use fastapi_starter.Prelude.{ℕ, ◌≡◌, refl, String, true, ◌==◌, arith, Bool-cases, ◌⊎◌, inl, inr}
use fastapi_starter.Domain.Errors.{ok, err, domain, validation_error}
use fastapi_starter.Domain.Email.{email, plain, email_re, strip}
use fastapi_starter.Text.Regex.{matches}
use fastapi_starter.Text.Regex.Language.{
  Run, IsEnd, reads_one, reads_plus, reads_dollar, Describes, nothing_more, followed_by,
  matches_described, matches_described, matches-Describes,
}

-- A local part, an at sign, a host, a full stop and a last label, none of them empty and none with
-- an at sign or a space; `rest` is the end, or the newline that `$` lets pass.
pub data IsAddress (s : String) : Type 0 where
  parts :
      {at_sign full_stop : Char} {domain_part label rest : String}
      → Run plain s (String.◌∷◌ at_sign domain_part)
      → code at_sign ≡ 64
      → Run plain domain_part (String.◌∷◌ full_stop label)
      → code full_stop ≡ 46
      → Run plain label rest
      → IsEnd rest
      → IsAddress s

equal_codes : (m n : ℕ) → (m == n) ≡ true → m ≡ n
equal_codes m n h = ground arith

same_codes : (m n : ℕ) → m ≡ n → (m == n) ≡ true
same_codes m n h = ground arith

described : (s : String) → Describes email_re s → IsAddress s
described s
      (followed_by (reads_plus local) (
        followed_by (reads_one at) (
          followed_by (reads_plus host) (
            followed_by
              (reads_one stop)
              (followed_by (reads_plus label) (followed_by (reads_dollar left) nothing_more)))))) =
    parts local (equal_codes _ 64 at) host (equal_codes _ 46 stop) label left

describes : (s : String) → IsAddress s → Describes email_re s
describes s (parts local at host stop label left) = followed_by (reads_plus local) (
    followed_by (reads_one (same_codes _ 64 at)) (
      followed_by (reads_plus host) (
        followed_by (reads_one (same_codes _ 46 stop))
          (followed_by (reads_plus label) (followed_by (reads_dollar left) nothing_more)))))

-- An `Email` is made of a text exactly if the text, trimmed and in lower case, is a non-empty local
-- part, an at sign, and two non-empty parts joined by a full stop, all without at signs and white
-- space, with at most a newline behind them; its value is then that form of the text. Of any other
-- text a ValidationError is raised, which names it.
pub email-IsAddress :
    (lower repr : String → String) (raw : String)
    → (IsAddress (lower (strip raw))
        × (email lower repr raw ≡ ok (record { value = lower (strip raw) })))
      ⊎ ((¬ IsAddress (lower (strip raw)))
          × (email lower repr raw
              ≡ err (domain validation_error ("Invalid email address: " ++ repr raw))))
unfolding email
email-IsAddress lower repr raw = elim (Bool-cases (matches email_re (lower (strip raw)))) [
  | inl hit ↦ inl (described _ (matches-Describes email_re _ hit), rw hit refl)
  | inr miss ↦ inr (
    λ a.
        absurd
          (ground (arith, miss, matches_described email_re (lower (strip raw)) (describes _ a))),
    rw miss refl,
  )
]
