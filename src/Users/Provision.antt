-- ===== src/Users/Provision.antt =====
-- How a user's row comes about and is kept up: `provisionFromSupabase` of
-- src/modules/users/users.service.ts. `lower` is JavaScript's `toLowerCase`.
pub mod Stored
use text.Mathlib.Text.{◌==◌ as str_eq}
use bomboli_server.Prelude.{
  ⊤, ℕ, ◌==◌, ◌&&◌, ◌||◌, Bool, true, false, not, String, Option, none, some, List, [], ◌∷◌,
  or_default, if◌then◌else◌, update, by_id,
}
use bomboli_server.Db.{
  Db, Env, User, Error, Action, pure, gets, throw_if, modify, ◌>>=◌, ◌>>◌, user_key,
}
use bomboli_server.Users.{find_by_supabase_id}

-- `ProvisionInput`: a field of the last four that is left out keeps its column.
pub record ProvisionInput : Type 0 where
  pub supabase_id : ℕ
  pub email : String
  pub phone : Option String
  pub display_name : Option (Option String)
  pub email_verified_at : Option (Option ℕ)
  pub phone_verified_at : Option (Option ℕ)
  pub last_sign_in_at : Option (Option ℕ)

unfoldable same_phone : Option String → Option String → Bool
same_phone (some p) (some q) = str_eq p q
same_phone _ _ = false

-- The unique columns `email` and `phone`: whether another row has a value of this one.
unfoldable pub clashes : User → List User → Bool
unfolding same_phone
clashes u [] = false
clashes u (r ∷ rows) =
    (not (r.id == u.id) && (str_eq r.email u.email || same_phone r.phone u.phone)) || clashes u rows

module _ (lower : String → String) where
  -- `create: data`, with the defaults of the schema.
  unfoldable pub new_user : Env → ProvisionInput → User
  new_user env input = record {
    id = env.fresh 0;
    supabase_id = input.supabase_id;
    email = lower input.email;
    phone = input.phone;
    is_admin = false;
    display_name = or_default none input.display_name;
    avatar_url = none;
    preferred_language = "fr";
    theme_pref = "system";
    default_location = none;
    email_verified_at = or_default none input.email_verified_at;
    phone_verified_at = or_default none input.phone_verified_at;
    last_sign_in_at = or_default none input.last_sign_in_at;
    created_at = env.now;
    updated_at = env.now;
  }

  -- `update: updateData`
  unfoldable pub provisioned : Env → ProvisionInput → User → User
  provisioned env input u = record u {
    email = lower input.email;
    phone = input.phone;
    display_name = or_default u.display_name input.display_name;
    email_verified_at = or_default u.email_verified_at input.email_verified_at;
    phone_verified_at = or_default u.phone_verified_at input.phone_verified_at;
    last_sign_in_at = or_default u.last_sign_in_at input.last_sign_in_at;
    updated_at = env.now;
  }

  unfoldable pub store_user : User → (Db → Db) → Action User
  store_user row write = do
    throw_if (← gets (λ db. clashes row db.users)) Error.unique_violation
    modify write
    pure row

  unfoldable pub upsert_user : Env → ProvisionInput → Option User → Action User
  upsert_user env input none =
      store_user (new_user env input) (λ db. record db { users = new_user env input ∷ db.users })
  upsert_user env input (some u) =
      store_user (provisioned env input u)
        (λ db. record db { users = update (by_id u.id) (provisioned env input) db.users })

  unfoldable pub provision_from_supabase : Env → ProvisionInput → Action User
  provision_from_supabase env input = do
    upsert_user env input (← gets (find_by_supabase_id input.supabase_id))
