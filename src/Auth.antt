-- ===== src/Auth.antt =====
-- Signing up and in: src/modules/auth/auth.service.ts and strategies/supabase-jwt.strategy.ts.
-- Supabase Auth, the mail service and JavaScript's `toLowerCase` and `trim` are parameters.
pub mod Errors
pub mod Phones
use Prim.Native.String.{String as Text}
use bomboli_server.Prelude.{
  ⊤, ℕ, ◌+◌, ◌/◌, Bool, true, false, String, Option, none, some, or_default, or_else, if◌then◌else◌,
}
use bomboli_server.Db.{
  Db, Env, User, Error, ErrorCode, Action, pure, throw, gets, or_throw, ◌>>=◌, ◌>>◌,
}
use bomboli_server.Users.{find_by_supabase_id}
use bomboli_server.Users.Provision.{ProvisionInput, provision_from_supabase}
use bomboli_server.Auth.Errors.{AuthError, map_auth_error, is_rate_limit, rate_limited}

-- A user of Supabase Auth, its timestamps as `parseTs` reads them.
pub record SupabaseUser : Type 0 where
  pub id : ℕ
  pub email : Option String
  pub phone : Option String
  pub email_confirmed_at : Option ℕ
  pub phone_confirmed_at : Option ℕ
  pub last_sign_in_at : Option ℕ

pub record Session : Type 0 where
  pub access_token : String
  pub refresh_token : String
  pub expires_in : ℕ
  pub expires_at : Option ℕ

-- The answer to a request for a session: both, or an error, which may be missing.
pub data Grant : Type 0 where
  granted : SupabaseUser → Session → Grant
  denied : Option AuthError → Grant

-- The answer to `generateLink` for a sign-up: the user and the code to be mailed.
pub data Link : Type 0 where
  linked : SupabaseUser → Option String → Link
  refused : Option AuthError → Link

pub record SignupArgs : Type 0 where
  pub email : String
  pub password : String
  pub display_name : Option String
  pub phone : Option String

-- `SessionDto`
pub record SessionDto : Type 0 where
  pub access_token : String
  pub refresh_token : String
  pub expires_in : ℕ
  pub expires_at : ℕ

pub record AuthSession : Type 0 where
  pub user : User
  pub session : SessionDto

-- `toSession`, whose clock counts seconds.
unfoldable pub to_session : ℕ → Session → SessionDto
to_session now s = record {
  access_token = s.access_token;
  refresh_token = s.refresh_token;
  expires_in = s.expires_in;
  expires_at = or_default (now / 1000 + s.expires_in) s.expires_at;
}

-- `text || null`
unfoldable pub or_null : Option String → Option String
or_null none = none
or_null (some Text.[]) = none
or_null (some (Text.◌∷◌ c s)) = some (Text.◌∷◌ c s)

abbrev pub trimmed : (String → String) → Option String → Option String
trimmed trim none = none
trimmed trim (some s) = some (trim s)

-- What a mail that is sent comes to: `true`, or an exception.
abbrev sent : Bool → Action ⊤
sent true = pure tt
sent false = throw Error.upstream

module _ (lower trim : String → String) where
  -- The row that `materialize` asks for.
  unfoldable pub input_of : Env → SupabaseUser → ProvisionInput
  unfolding or_null
  input_of env u = record {
    supabase_id = u.id;
    email = or_default "" u.email;
    phone = or_null (trimmed trim u.phone);
    display_name = none;
    email_verified_at = some u.email_confirmed_at;
    phone_verified_at = some u.phone_confirmed_at;
    last_sign_in_at = some (some (or_default env.now u.last_sign_in_at));
  }

  unfoldable pub materialize : Env → SupabaseUser → Session → Action AuthSession
  materialize env u session = do
    user ← provision_from_supabase lower env (input_of env u)
    pure (record { user = user; session = to_session env.now session })

  -- `loginWithPassword`, `refresh`, `verifyEmailOtp` and `exchangeOAuthIdToken`, by what Supabase
  -- answers to the password, the token or the code.
  unfoldable pub sign_in : Env → Grant → Action AuthSession
  sign_in env (denied error) = throw (map_auth_error lower error)
  sign_in env (granted u session) = materialize env u session

  -- The second argument is the answer to the change of the password.
  unfoldable reset_password : Env → Grant → Option AuthError → Action AuthSession
  reset_password env (denied error) changed = throw (map_auth_error lower error)
  reset_password env (granted u session) (some error) = throw (map_auth_error lower (some error))
  reset_password env (granted u session) none = materialize env u session

  unfoldable pub signup_input : String → SignupArgs → SupabaseUser → ProvisionInput
  unfolding or_null
  signup_input email args u = record {
    supabase_id = u.id;
    email = or_default email u.email;
    phone = or_null (trimmed trim args.phone);
    display_name = some args.display_name;
    email_verified_at = some none;
    phone_verified_at = some none;
    last_sign_in_at = some none;
  }

  -- The code is mailed after the row is written, and a failure to mail it is thrown.
  unfoldable pub signup_linked :
      Env → SignupArgs → Bool → SupabaseUser → Option String → Action User
  signup_linked env args mailed u none = throw Error.upstream
  signup_linked env args mailed u (some token) = do
    user ← provision_from_supabase lower env (signup_input (lower (trim args.email)) args u)
    sent mailed
    pure user

  unfoldable pub signup : Env → SignupArgs → Bool → Link → Action User
  signup env args mailed (refused error) = throw (map_auth_error lower error)
  signup env args mailed (linked u token) = signup_linked env args mailed u token

  -- `resendVerification`: only a rate limit is told.
  unfoldable resend_verification : Option AuthError → Action ⊤
  resend_verification none = pure tt
  resend_verification (some error) =
      if is_rate_limit lower (some error) then throw rate_limited else pure tt

  -- `requestPasswordReset`, by the token that Supabase made, if it made one.
  unfoldable request_password_reset : Bool → Option String → Action ⊤
  request_password_reset mailed none = pure tt
  request_password_reset mailed (some token) = sent mailed

  -- The claims of an access token that has been verified.
  record JwtPayload : Type 0 where
    pub sub : Option ℕ
    pub email : Option String
    pub phone : Option String

  -- `AuthenticatedUser`
  record AuthenticatedUser : Type 0 where
    pub id : ℕ
    pub email : String
    pub phone : Option String
    pub is_admin : Bool

  unfoldable jit_input : ℕ → String → Option String → ProvisionInput
  jit_input sub email phone = record {
    supabase_id = sub;
    email = email;
    phone = phone;
    display_name = none;
    email_verified_at = none;
    phone_verified_at = none;
    last_sign_in_at = none;
  }

  -- The caller's row, which is made from the claims if the webhook has not made it.
  unfoldable row_of : Env → JwtPayload → ℕ → Option User → Action User
  unfolding or_null
  row_of env payload sub (some user) = pure user
  row_of env payload sub none = do
    email ← or_throw Error.unauthorized (or_null payload.email)
    provision_from_supabase lower env (jit_input sub email payload.phone)

  unfoldable validate : Env → JwtPayload → Action AuthenticatedUser
  validate env payload = do
    sub ← or_throw Error.unauthorized payload.sub
    user ← row_of env payload sub (← gets (find_by_supabase_id sub))
    pure (record { id = sub; email = user.email; phone = user.phone; is_admin = user.is_admin })
