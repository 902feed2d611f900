-- ===== src/Users/Profile.antt =====
-- `getMeWithLocation` and `updateProfile` of src/modules/users/users.service.ts, and
-- users.mapper.ts.
use Prim.Native.String.{String as Text}
use text.Mathlib.Text.{◌==◌ as str_eq}
use bomboli_server.Prelude.{
  ℕ, ◌==◌, ◌&&◌, ◌||◌, Bool, true, false, not, String, Option, none, some, or_default, map_some,
  if◌then◌else◌, find, update, by_id,
}
use bomboli_server.Db.{
  Db, Env, Point, User, Error, Action, pure, gets, throw_if, modify, ◌>>=◌, ◌>>◌, user_key,
}
use bomboli_server.Users.{get_by_supabase_id_or_fail, find_seller_id_by_user_id}

-- `ProfileUpdateInput`: a field left out keeps its column.
record ProfileUpdateInput : Type 0 where
  pub display_name : Option (Option String)
  pub preferred_language : Option String
  pub theme_pref : Option String
  pub avatar_url : Option (Option String)
  pub default_location : Option (Option Point)

-- `UserWithLocation`, and `MeResponseDto`, which has the same columns.
record Me : Type 0 where
  pub user : User
  pub seller_profile_id : Option ℕ
  pub deliverer_id : Option ℕ

unfoldable deliverer_id_of : ℕ → Db → Option ℕ
deliverer_id_of user_id db = map_some (λ d. d.id) (find (λ d. d.user_id == user_id) db.deliverers)

unfoldable get_me_with_location : ℕ → Action Me
get_me_with_location sub = do
  user ← get_by_supabase_id_or_fail sub
  seller ← gets (find_seller_id_by_user_id user.id)
  deliverer ← gets (deliverer_id_of user.id)
  pure (record { user = user; seller_profile_id = seller; deliverer_id = deliverer })

-- A text that is given, not empty, and not in the list.
unfoldable is_unsupported : (String → Bool) → Option String → Bool
is_unsupported supported none = false
is_unsupported supported (some Text.[]) = false
is_unsupported supported (some (Text.◌∷◌ c s)) = not (supported (Text.◌∷◌ c s))

abbrev is_language : String → Bool
is_language s = str_eq s "fr" || str_eq s "en"

abbrev is_theme : String → Bool
is_theme s = str_eq s "system" || str_eq s "light" || str_eq s "dark"

-- The columns that the two statements of `updateProfile` write.
unfoldable updated_profile : Env → ProfileUpdateInput → User → User
updated_profile env input u = record u {
  display_name = or_default u.display_name input.display_name;
  preferred_language = or_default u.preferred_language input.preferred_language;
  theme_pref = or_default u.theme_pref input.theme_pref;
  avatar_url = or_default u.avatar_url input.avatar_url;
  default_location = or_default u.default_location input.default_location;
  updated_at = env.now;
}

unfoldable pub is_left_out : {A : Type 0} → Option A → Bool
is_left_out none = true
is_left_out (some _) = false

unfoldable changes_nothing : ProfileUpdateInput → Bool
unfolding is_left_out
changes_nothing input =
    is_left_out input.display_name
    && is_left_out input.preferred_language
    && is_left_out input.theme_pref
    && is_left_out input.avatar_url
    && is_left_out input.default_location

unfoldable update_profile : Env → ℕ → ProfileUpdateInput → Action Me
unfolding is_unsupported
update_profile env sub input = do
  throw_if (is_unsupported is_language input.preferred_language) Error.upstream
  throw_if (is_unsupported is_theme input.theme_pref) Error.upstream
  user ← get_by_supabase_id_or_fail sub
  modify (λ db.
      if changes_nothing input
      then db
      else record db { users = update (by_id user.id) (updated_profile env input) db.users })
  get_me_with_location sub
