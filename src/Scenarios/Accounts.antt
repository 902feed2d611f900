-- ===== src/Scenarios/Accounts.antt =====
-- The users of the shop: a sign-up with a phone number, a sign-in, and a device.
use Prim.Native.String.{◌++◌}
use text.Mathlib.Text.{◌==◌ as str_eq}
use bomboli_server.Prelude.{
  ◌==◌, ◌≡◌, refl, true, ◌⊎◌, String, none, some, ◌∷◌, find, update, UniqueIds, if◌then◌else◌,
  arith,
}
use bomboli_server.Db.{Db, User, Device, ok, err, Error, android, user_key, device_key}
use bomboli_server.Users.{find_by_supabase_id}
use bomboli_server.Users.Provision.{
  ProvisionInput, clashes, new_user, provisioned, upsert_user, store_user, provision_from_supabase,
}
use bomboli_server.Users.Provision.Stored.{IsTaken, IsProvisioned, provision-cases}
use bomboli_server.Users.Devices.{RegisterDeviceArgs, has_token, register}
use bomboli_server.Users.Devices.Tokens.{register-find}
use bomboli_server.Auth.{
  SupabaseUser, Session, SignupArgs, linked, granted, signup, signup_linked, signup_input, input_of,
  materialize, to_session, sign_in, or_null, trimmed,
}
use bomboli_server.Auth.Phones.{signup-sign_in}
use bomboli_server.Scenarios.Data.{env, later, db, buyer}

abbrev same : String → String
same s = s

-- A change of texts that leaves a mark.
loud : String → String
loud s = s ++ "!"

abbrev newcomer : ProvisionInput
newcomer = record {
  supabase_id = 13;
  email = "new";
  phone = some "+243";
  display_name = none;
  email_verified_at = none;
  phone_verified_at = none;
  last_sign_in_at = none;
}

users-UniqueIds : UniqueIds db.users
users-UniqueIds = (((λ e. absurd (omega arith)), tt), (tt, tt))

provision-cases_example :
    let found = find (λ u. u.supabase_id == 13) db.users in
    let s = provision_from_supabase loud env newcomer db in
    (row : User) × IsProvisioned loud env newcomer found row
    × ((IsTaken row db.users × (s ≡ (err Error.unique_violation, db)))
        ⊎ ((¬ IsTaken row db.users)
            × (s.0 ≡ ok row)
            × (find (λ u. u.supabase_id == 13) s.1.users ≡ some row)))
provision-cases_example = provision-cases loud env newcomer db users-UniqueIds

-- The newcomer is stored.
newcomer_stored :
    (find (λ u. u.supabase_id == 13) (provision_from_supabase loud env newcomer db).1.users)
    ≡ some (new_user loud env newcomer)
unfolding provision_from_supabase upsert_user store_user clashes find_by_supabase_id find new_user
    loud
newcomer_stored = refl

abbrev phone : RegisterDeviceArgs
phone = record { platform = android; push_token = "P" }

register-find_example :
    (d : Device) × ((register env 11 phone db).0 ≡ ok d)
    × (d.user_id ≡ 1)
    × (d.push_token ≡ "P")
    × (find (has_token "Q") (register env 11 phone db).1.devices
        ≡ (if str_eq "P" "Q" then some d else find (has_token "Q") db.devices))
unfolding find_by_supabase_id find
register-find_example = register-find env phone 11 buyer db "Q" refl tt

abbrev args : SignupArgs
args = record { email = "new"; password = "pw"; display_name = none; phone = some "+243" }

abbrev account : SupabaseUser
account = record {
  id = 13;
  email = some "new";
  phone = none;
  email_confirmed_at = none;
  phone_confirmed_at = none;
  last_sign_in_at = none;
}

abbrev session : Session
session = record { access_token = "A"; refresh_token = "R"; expires_in = 3600; expires_at = none }

-- The row of the sign-up, and that of the sign-in.
abbrev joined : User
joined = new_user same env (signup_input same same "new" args account)

abbrev signed_up : Db
signed_up = record db { users = joined ∷ db.users }

abbrev returned : User
returned = provisioned same later (input_of same same later account) joined

abbrev signed_in : Db
signed_in = record db { users = returned ∷ db.users }

signs_up : signup same same env args true (linked account (some "code")) db ≡ (ok joined, signed_up)
unfolding signup signup_linked provision_from_supabase upsert_user store_user find_by_supabase_id
    find clashes signup_input new_user
signs_up = refl

signs_in :
    sign_in same same later (granted account session) signed_up
    ≡ (ok (record { user = returned; session = to_session 2000 session }), signed_in)
unfolding sign_in materialize provision_from_supabase upsert_user store_user find_by_supabase_id
    find clashes update new_user signup_input input_of provisioned
signs_in = refl

signed_up-UniqueIds : UniqueIds signed_up.users
unfolding new_user
signed_up-UniqueIds =
    (((λ e. absurd (omega arith)), ((λ e. absurd (omega arith)), tt)), users-UniqueIds)

signup-sign_in_example :
    (joined.phone ≡ or_null (trimmed same (some "+243")))
    × (find_by_supabase_id 13 signed_up ≡ some joined)
    × (returned.id ≡ joined.id)
    × (returned.phone ≡ none)
    × (find_by_supabase_id 13 signed_in ≡ some returned)
signup-sign_in_example =
    signup-sign_in same same env later args "code" account account session db signed_up signed_in
      joined (record { user = returned; session = to_session 2000 session }) refl refl
      users-UniqueIds signed_up-UniqueIds signs_up signs_in
