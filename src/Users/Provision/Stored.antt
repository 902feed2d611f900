-- ===== src/Users/Provision/Stored.antt =====
-- What `provisionFromSupabase` of src/modules/users/users.service.ts stores.
use text.Mathlib.Text.{◌==◌ as str_eq}
use text.Mathlib.TextEquality.{eq_iff}
use text.Mathlib.TextPositions.{eq_refl}
use bomboli_server.Prelude.{
  ◌≢◌, [], Any, ap, sym, or_default, before, ◌==◌, ◌≡◌, ◌⊎◌, refl, true, false, String, Option,
  none, some, List, ◌∷◌, find, update, by_id, UniqueIds, find-update_found, find-true, arith,
  Bool-cases, inl, inr, ==-refl,
}
use bomboli_server.Db.{Db, Env, User, Error, ok, err, user_key}
use bomboli_server.Users.{find_by_supabase_id}
use bomboli_server.Users.Provision.{
  ProvisionInput, same_phone, clashes, new_user, provisioned, store_user, upsert_user,
  provision_from_supabase,
}

-- Another user has the email of a row, or its phone where it has one.
abbrev pub Rivals : User → User → Type 0
Rivals row r =
    (r.id ≢ row.id)
    × ((r.email ≡ row.email) ⊎ ((p : String) × (r.phone ≡ some p) × (row.phone ≡ some p)))

abbrev pub IsTaken : User → List User → Type 0
IsTaken row = Any (Rivals row)

same_phone-true :
    (a b : Option String) → same_phone a b ≡ true → (p : String) × (a ≡ some p) × (b ≡ some p)
unfolding same_phone
same_phone-true none b h = absurd (cc)
same_phone-true (some p) none h = absurd (cc)
same_phone-true (some p) (some q) h = (p, refl, ap some (sym ((eq_iff p q).0 h)))

same_phone_refl : (p : String) → same_phone (some p) (some p) ≡ true
unfolding same_phone
same_phone_refl p = eq_refl p

pub clashes-IsTaken : (row : User) (rows : List User) → clashes row rows ≡ true → IsTaken row rows
unfolding clashes
clashes-IsTaken row [] h = absurd (cc)
clashes-IsTaken row (r ∷ rows) h = elim (Bool-cases (clashes row rows)) [
  | inl later ↦ inr (clashes-IsTaken row rows later)
  | inr rest ↦
      let apart : r.id ≢ row.id = λ e. ground (arith, rest, e) in
      elim (Bool-cases (str_eq r.email row.email)) [
        | inl e ↦ inl (apart, inl ((eq_iff r.email row.email).0 e))
        | inr e ↦ inl (apart, inr (same_phone-true r.phone row.phone (ground (arith, rest, e))))
      ]
]

Rivals-clashes : (row r : User) (rows : List User) → Rivals row r → clashes row (r ∷ rows) ≡ true
unfolding clashes
Rivals-clashes row r rows (apart, inl e) =
    let same : str_eq r.email row.email ≡ true = (eq_iff r.email row.email).1 e in
    ground (arith, same)
Rivals-clashes row r rows (apart, inr (p, a, b)) =
    let same : same_phone r.phone row.phone ≡ true = rw (a, b) (same_phone_refl p) in
    ground (arith, same)

pub clashes-not-IsTaken :
    (row : User) (rows : List User) → clashes row rows ≡ false → ¬ IsTaken row rows
unfolding clashes
clashes-not-IsTaken row [] h t = t
clashes-not-IsTaken row (r ∷ rows) h (inl t) = ground (arith, Rivals-clashes row r rows t)
clashes-not-IsTaken row (r ∷ rows) h (inr t) = clashes-not-IsTaken row rows (ground arith) t

module _ (lower : String → String) (env : Env) (input : ProvisionInput) where
  -- The row that a user gets or becomes.
  unfoldable pub row_for : Option User → User
  row_for none = new_user lower env input
  row_for (some u) = provisioned lower env input u

  store_user-free :
      (row : User) (write : Db → Db) (db : Db)
      → clashes row db.users ≡ false
      → store_user lower row write db ≡ (ok row, write db)
  unfolding store_user
  store_user-free row write db h = ground (arith, h)

  store_user-taken :
      (row : User) (write : Db → Db) (db : Db)
      → clashes row db.users ≡ true
      → store_user lower row write db ≡ (err Error.unique_violation, db)
  unfolding store_user
  store_user-taken row write db h = ground (arith, h)

  upsert_user-taken :
      (found : Option User) (db : Db)
      → clashes (row_for found) db.users ≡ true
      → upsert_user lower env input found db ≡ (err Error.unique_violation, db)
  unfolding upsert_user row_for
  upsert_user-taken none db h = store_user-taken _ _ db h
  upsert_user-taken (some u) db h = store_user-taken _ _ db h

  new-found :
      (rows : List User)
      → find (λ u. u.supabase_id == input.supabase_id) (new_user lower env input ∷ rows)
        ≡ some (new_user lower env input)
  unfolding find new_user
  new-found rows = rw (==-refl input.supabase_id) refl

  updated-found :
      (u : User) (rows : List User)
      → UniqueIds rows
      → find (λ x. x.supabase_id == input.supabase_id) rows ≡ some u
      → find
          (λ x. x.supabase_id == input.supabase_id)
          (update (by_id u.id) (provisioned lower env input) rows)
        ≡ some (provisioned lower env input u)
  unfolding provisioned
  updated-found u rows unique f =
      find-update_found (λ x. x.supabase_id == input.supabase_id) (provisioned lower env input) rows
        u unique f (find-true (λ x. x.supabase_id == input.supabase_id) rows u f)

  upsert_user-free :
      (found : Option User) (db : Db)
      → UniqueIds db.users
      → find_by_supabase_id input.supabase_id db ≡ found
      → clashes (row_for found) db.users ≡ false
      → ((upsert_user lower env input found db).0 ≡ ok (row_for found))
        × (find_by_supabase_id input.supabase_id (upsert_user lower env input found db).1
            ≡ some (row_for found))
  unfolding upsert_user row_for find_by_supabase_id
  upsert_user-free none db u f h = rw (store_user-free _ _ db h) (refl, new-found db.users)
  upsert_user-free (some x) db u f h =
      rw (store_user-free _ _ db h) (refl, updated-found x db.users u f)

  pub provision-rows :
      (db : Db)
      → UniqueIds db.users
      → let row = row_for (find_by_supabase_id input.supabase_id db) in
        let s = provision_from_supabase lower env input db in
        ((clashes row db.users ≡ true) × (s ≡ (err Error.unique_violation, db)))
        ⊎ ((clashes row db.users ≡ false)
            × (s.0 ≡ ok row)
            × (find_by_supabase_id input.supabase_id s.1 ≡ some row))
  unfolding provision_from_supabase
  provision-rows db u =
      let found = find_by_supabase_id input.supabase_id db in
      elim (Bool-cases (clashes (row_for found) db.users)) [
        | inl clash ↦ inl (clash, upsert_user-taken found db clash)
        | inr free ↦
            let (ends, stored) = upsert_user-free found db u refl free in inr (free, ends, stored)
      ]

  -- What is stored for the user that was found, or for a new one: the email in lower case, the phone
  -- even where it is left out, and of the other columns those that are given.
  pub record IsProvisioned (found : Option User) (row : User) : Type 0 where
    pub its_id : row.id ≡ before (λ u. u.id) (env.fresh 0) found
    pub its_auth : row.supabase_id ≡ before (λ u. u.supabase_id) input.supabase_id found
    pub its_email : row.email ≡ lower input.email
    pub its_phone : row.phone ≡ input.phone
    pub its_role : row.is_admin ≡ before (λ u. u.is_admin) false found
    pub its_name :
        row.display_name ≡ or_default (before (λ u. u.display_name) none found) input.display_name
    pub its_email_check :
        row.email_verified_at
        ≡ or_default (before (λ u. u.email_verified_at) none found) input.email_verified_at
    pub its_phone_check :
        row.phone_verified_at
        ≡ or_default (before (λ u. u.phone_verified_at) none found) input.phone_verified_at
    pub its_sign_in :
        row.last_sign_in_at
        ≡ or_default (before (λ u. u.last_sign_in_at) none found) input.last_sign_in_at
    pub its_avatar : row.avatar_url ≡ before (λ u. u.avatar_url) none found

  row_for-IsProvisioned : (found : Option User) → IsProvisioned found (row_for found)
  unfolding row_for new_user provisioned
  row_for-IsProvisioned none = record {
    its_id = refl;
    its_auth = refl;
    its_email = refl;
    its_phone = refl;
    its_role = refl;
    its_name = refl;
    its_email_check = refl;
    its_phone_check = refl;
    its_sign_in = refl;
    its_avatar = refl;
  }
  row_for-IsProvisioned (some u) = record {
    its_id = refl;
    its_auth = refl;
    its_email = refl;
    its_phone = refl;
    its_role = refl;
    its_name = refl;
    its_email_check = refl;
    its_phone_check = refl;
    its_sign_in = refl;
    its_avatar = refl;
  }

  -- The row of a user has the email in lower case, the phone of the request even where it is left
  -- out, and of the name and the three dates those that are given; the other columns that are named
  -- keep what they held, or start with their defaults. Where another user has that email or that
  -- phone, the request is refused and nothing is written. Otherwise, and only then, the row is
  -- answered and is what a search by the Supabase id finds from then on; if no two users have one id.
  pub provision-cases :
      (db : Db)
      → UniqueIds db.users
      → let found = find (λ u. u.supabase_id == input.supabase_id) db.users in
        let s = provision_from_supabase lower env input db in
        (row : User) × IsProvisioned found row
        × ((IsTaken row db.users × (s ≡ (err Error.unique_violation, db)))
            ⊎ ((¬ IsTaken row db.users)
                × (s.0 ≡ ok row)
                × (find (λ u. u.supabase_id == input.supabase_id) s.1.users ≡ some row)))
  unfolding find_by_supabase_id
  provision-cases db u =
      let found = find (λ (x : User). x.supabase_id == input.supabase_id) db.users in
      (
        row_for found,
        row_for-IsProvisioned found,
        elim (provision-rows db u) [
          | inl (clash, refused) ↦ inl (clashes-IsTaken _ db.users clash, refused)
          | inr (free, ends, stored) ↦ inr (clashes-not-IsTaken _ db.users free, ends, stored)
        ],
      )
