-- ===== src/Auth/Phones.antt =====
-- The phone number that a user gives to `signup` of src/modules/auth/auth.service.ts, which is kept
-- in the row and not at Supabase, when the user signs in.
use bomboli_server.Prelude.{
  ℕ, ◌≡◌, ◌∙◌, subst, ap, refl, true, String, Option, none, some, UniqueIds, inl, inr, arith,
}
use bomboli_server.Db.{Db, Env, User, ok, user_key, Run-cases}
use bomboli_server.Users.{find_by_supabase_id}
use bomboli_server.Users.Provision.{ProvisionInput, new_user, provisioned, provision_from_supabase}
use bomboli_server.Users.Provision.Stored.{row_for, provision-rows}
use bomboli_server.Auth.{
  SupabaseUser, Session, AuthSession, linked, granted, SignupArgs, or_null, trimmed, input_of,
  materialize, sign_in, signup_input, signup_linked, signup,
}

module _ (lower trim : String → String) where
  provision-ok :
      (env : Env) (input : ProvisionInput) (db db₁ : Db) (row : User)
      → UniqueIds db.users
      → provision_from_supabase lower env input db ≡ (ok row, db₁)
      → (row ≡ row_for lower env input (find_by_supabase_id input.supabase_id db))
        × (find_by_supabase_id input.supabase_id db₁ ≡ some row)
  provision-ok env input db db₁ row u e = elim (provision-rows lower env input db u) [
    | inl (_, h) ↦ ground (arith, e, h)
    | inr (_, ends, stored) ↦ ground (arith, e, ends, stored)
  ]

  row_for-phone :
      (env : Env) (input : ProvisionInput) (found : Option User)
      → (row_for lower env input found).phone ≡ input.phone
  unfolding row_for new_user provisioned
  row_for-phone env input none = refl
  row_for-phone env input (some u) = refl

  row_for-id :
      (env : Env) (input : ProvisionInput) (u : User) → (row_for lower env input (some u)).id ≡ u.id
  unfolding row_for provisioned
  row_for-id env input u = refl

  phone_of-none : (u : SupabaseUser) → u.phone ≡ none → or_null (trimmed trim u.phone) ≡ none
  unfolding or_null
  phone_of-none u h = rw h refl

  signup_linked-run :
      (env : Env) (args : SignupArgs) (u : SupabaseUser) (token : String) (db db₁ : Db) (row : User)
      → signup_linked lower trim env args true u (some token) db ≡ (ok row, db₁)
      → provision_from_supabase lower env
          (signup_input lower trim (lower (trim args.email)) args u)
          db
        ≡ (ok row, db₁)
  unfolding signup_linked
  signup_linked-run env args u token db db₁ row e =
      elim (Run-cases (
        provision_from_supabase lower env (signup_input lower trim (lower (trim args.email)) args u)
          db)) [ inl (a, db₂, h) ↦ ground (arith, e, h) | inr (x, db₂, h) ↦ ground (arith, e, h) ]

  sign_in-run :
      (env : Env) (u : SupabaseUser) (session : Session) (db db₁ : Db) (a : AuthSession)
      → sign_in lower trim env (granted u session) db ≡ (ok a, db₁)
      → provision_from_supabase lower env (input_of lower trim env u) db ≡ (ok a.user, db₁)
  unfolding sign_in materialize
  sign_in-run env u session db db₁ a e =
      elim (Run-cases (provision_from_supabase lower env (input_of lower trim env u) db)) [
        | inl (b, db₂, h) ↦ ground (arith, e, h)
        | inr (x, db₂, h) ↦ ground (arith, e, h)
      ]

  -- A user who signs up with a phone number and then signs in, both without an exception, has the
  -- number of the sign-up in the row until then and no number afterwards: the session's user is the
  -- row that was signed up, it has no phone, and it is what the table holds; if Supabase knows no
  -- phone of the user and no two users have one id before either request.
  pub signup-sign_in :
      (env later : Env) (args : SignupArgs) (token : String) (before u : SupabaseUser)
      (session : Session) (db db₁ db₂ : Db) (row : User) (a : AuthSession)
      → before.id ≡ u.id
      → u.phone ≡ none
      → UniqueIds db.users
      → UniqueIds db₁.users
      → signup lower trim env args true (linked before (some token)) db ≡ (ok row, db₁)
      → sign_in lower trim later (granted u session) db₁ ≡ (ok a, db₂)
      → (row.phone ≡ or_null (trimmed trim args.phone))
        × (find_by_supabase_id u.id db₁ ≡ some row)
        × (a.user.id ≡ row.id)
        × (a.user.phone ≡ none)
        × (find_by_supabase_id u.id db₂ ≡ some a.user)
  unfolding signup signup_input input_of or_null
  signup-sign_in env later args token before u session db db₁ db₂ row a same no_phone u₀ u₁ up
        into =
      let up_input = signup_input lower trim (lower (trim args.email)) args before in
      let (stored, found) =
        provision-ok env up_input db db₁ row u₀
          (signup_linked-run env args before token db db₁ row up) in
      let (answer, kept) =
        provision-ok later (input_of lower trim later u) db₁ db₂ a.user u₁
          (sign_in-run later u session db₁ db₂ a into) in
      let here : find_by_supabase_id u.id db₁ ≡ some row =
        subst (λ (i : ℕ). find_by_supabase_id i db₁ ≡ some row) same found in
      let now = input_of lower trim later u in
      (
        ap (λ (r : User). r.phone) stored ∙ row_for-phone env up_input _,
        here,
        ap (λ (r : User). r.id) answer
            ∙ ap (λ (f : Option User). (row_for lower later now f).id) here
            ∙ row_for-id later now row,
        ap (λ (r : User). r.phone) answer ∙ row_for-phone later now _ ∙ phone_of-none u no_phone,
        kept,
      )
