-- ===== src/Domain/Errors.antt =====
-- app/domain/shared/exceptions.py, app/domain/auth/exceptions.py, app/domain/users/exceptions.py,
-- and the exceptions of other layers that cross a handler, with the result type of code that raises.
use fastapi_starter.Prelude.{ℕ, String, List}

-- The classes that derive from DomainError, itself included.
pub data DomainError : Type 0 where
  domain_error : DomainError
  validation_error : DomainError
  user_not_found : DomainError
  email_already_exists : DomainError
  invalid_credentials : DomainError
  invalid_token : DomainError
  token_expired : DomainError

-- The class attribute `message`.
unfoldable pub message : DomainError → String
message domain_error = "A domain error occurred."
message validation_error = "Validation failed."
message user_not_found = "User not found."
message email_already_exists = "A user with this email already exists."
message invalid_credentials = "Invalid email or password."
message invalid_token = "Invalid token."
message token_expired = "Token has expired."

-- What may be raised: a domain error with its message, an HTTP exception with its status, detail
-- and headers, or an exception of another class, by its name.
pub data Error : Type 0 where
  domain : DomainError → String → Error
  http : ℕ → String → List (String × String) → Error
  other : String → Error

-- `raise SomeError`: the message is the class's own.
abbrev pub domain_of : DomainError → Error
unfolding message
domain_of e = domain e (message e)

-- What a call gives back, or what it raises.
pub data Result {κ} (Returned : Type κ) : Type κ where
  ok : Returned → Result Returned
  err : Error → Result Returned

module _ {ℓ κ} {Returned : Type ℓ} {Next : Type κ} where
  infixl 5 ◌>>=◌
  abbrev pub ◌>>=◌ : Result Returned → (Returned → Result Next) → Result Next
  outcome >>= next = elim outcome [ err raised ↦ err raised | ok returned ↦ next returned ]
