-- ===== src/Auth/Errors.antt =====
-- What the errors of Supabase Auth become: `mapAuthError` of src/modules/auth/auth.service.ts.
use Prim.Native.String.{String as Text}
use text.Mathlib.Text.{starts_with}
use bomboli_server.Prelude.{Bool, false, ◌||◌, String, Option, none, some, if◌then◌else◌}
use bomboli_server.Db.{Error, ErrorCode}

-- `AuthError`, of which the message may be missing.
pub record AuthError : Type 0 where
  pub message : Option String

-- `message.includes(part)`
unfoldable pub includes : String → String → Bool
includes part Text.[] = starts_with Text.[] part
includes part (Text.◌∷◌ c s) = starts_with (Text.◌∷◌ c s) part || includes part s

-- `error?.message?.toLowerCase() ?? ''`
unfoldable pub message_of : (String → String) → Option AuthError → String
message_of lower none = ""
message_of lower (some e) = elim e.message [ none ↦ "" | some m ↦ lower m ]

unfoldable pub is_rate_limit : (String → String) → Option AuthError → Bool
unfolding message_of includes
is_rate_limit lower none = false
is_rate_limit lower (some e) =
    let m = message_of lower (some e) in includes "rate limit" m || includes "too many" m

abbrev pub rate_limited : Error
rate_limited = Error.domain ErrorCode.rate_limited 429

unfoldable pub map_auth_error : (String → String) → Option AuthError → Error
unfolding message_of includes is_rate_limit
map_auth_error lower error =
    let m = message_of lower error in
    if includes "already registered" m || includes "user already exists" m
    then Error.domain ErrorCode.email_taken 409
    else if includes "invalid login credentials" m || includes "invalid_credentials" m
    then Error.domain ErrorCode.invalid_credentials 401
    else if includes "email not confirmed" m
    then Error.domain ErrorCode.email_not_verified 401
    else if includes "token has expired" m || includes "invalid token" m || includes "expired" m
    then Error.domain ErrorCode.invalid_otp 401
    else if includes "password should be" m
    then Error.domain ErrorCode.password_too_weak 400
    else if is_rate_limit lower error
    then rate_limited
    else Error.domain ErrorCode.auth_provider_error 502
