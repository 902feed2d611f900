-- ===== src/Payments/Providers.antt =====
-- What the payment providers share: the exceptions and the header lookup at the end of each file of
-- src/modules/payments/providers. The other side of the network is a parameter throughout.
pub mod Amounts
pub mod Events
pub mod Paypal
pub mod Pawapay
pub mod Stripe
pub mod Verified
pub mod Tokens
pub mod Registry
use Prim.Native.String.{String as Text}
use text.Mathlib.Text.{◌==◌ as str_eq}
use bomboli_server.Prelude.{ℕ, Bool, String, Option, none, some, List, [], ◌∷◌, if◌then◌else◌}
use bomboli_server.Db.{Error, ErrorCode}

-- The answer to a `fetch`: a body, a status outside 200 to 299, or an exception of the network or
-- of the JSON parser.
pub data Fetched (A : Type 0) : Type 0 where
  body : A → Fetched A
  refused : ℕ → Fetched A
  broken : Fetched A

-- A header is absent, a text, or a list of texts.
pub data Header : Type 0 where
  one : String → Header
  many : List String → Header

abbrev pub Headers : Type 0
Headers = List (String × Header)

abbrev pub not_configured : Error
not_configured = Error.domain ErrorCode.auth_provider_error 503

abbrev pub bad_gateway : Error
bad_gateway = Error.domain ErrorCode.auth_provider_error 502

abbrev pub signature_missing : Error
signature_missing = Error.domain ErrorCode.unauthorized 401

abbrev pub signature_invalid : Error
signature_invalid = Error.domain ErrorCode.unauthorized 401

abbrev pub invalid_request : Error
invalid_request = Error.domain ErrorCode.validation_failed 400

-- `!text`, for a text that may be undefined.
unfoldable pub filled : Option String → Option String
filled none = none
filled (some Text.[]) = none
filled (some (Text.◌∷◌ c s)) = some (Text.◌∷◌ c s)

unfoldable first_of : Header → Option String
first_of (one v) = some v
first_of (many []) = none
first_of (many (v ∷ _)) = some v

-- The names are given in lower case.
unfoldable pub pick_header : Headers → String → Option String
unfolding first_of
pick_header [] name = none
pick_header ((n, v) ∷ headers) name = if str_eq n name then first_of v else pick_header headers name
