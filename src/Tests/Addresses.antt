-- ===== src/Tests/Addresses.antt =====
-- An address among spaces, and a text without a full stop behind the at sign.
use Prim.Native.String.{◌++◌}
use fastapi_starter.Prelude.{String, ◌≡◌, refl, ◌⊎◌}
use fastapi_starter.Domain.Errors.{ok, err, domain, validation_error}
use fastapi_starter.Domain.Email.{email, strip}
use fastapi_starter.Domain.Email.Shape.{IsAddress, email-IsAddress}

abbrev as_it_is : String → String
as_it_is s = s

accepts : email as_it_is as_it_is " ann@mail.x.org " ≡ ok (record { value = "ann@mail.x.org" })
unfolding email
accepts = refl

rejects :
    email as_it_is as_it_is "ann@org"
    ≡ err (domain validation_error "Invalid email address: ann@org")
unfolding email
rejects = refl

email-IsAddress_example :
    (IsAddress (strip " ann@mail.x.org ")
      × (email as_it_is as_it_is " ann@mail.x.org "
          ≡ ok (record { value = strip " ann@mail.x.org " })))
    ⊎ ((¬ IsAddress (strip " ann@mail.x.org "))
        × (email as_it_is as_it_is " ann@mail.x.org "
            ≡ err (domain validation_error ("Invalid email address: " ++ " ann@mail.x.org "))))
email-IsAddress_example = email-IsAddress as_it_is as_it_is " ann@mail.x.org "
