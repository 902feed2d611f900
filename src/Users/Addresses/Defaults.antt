-- ===== src/Users/Addresses/Defaults.antt =====
-- The default address of a user: src/modules/users/addresses/addresses.service.ts and
-- addresses.repository.ts.
use bomboli_server.Prelude.{
  ⊤, ℕ, ◌==◌, ◌≡◌, ◌≢◌, ◌⊎◌, inl, inr, update, delete, by_id, sum_by, is_empty, UniqueIds,
  or_default, arith, Option-cases, Bool-cases,
}
use bomboli_server.Db.{done, done-state, Db, Env, Address, Action, Run-cases, address_key}
use bomboli_server.Users.{get_by_supabase_id_or_fail}
use bomboli_server.Users.Addresses.{
  CreateAddressArgs, UpdateAddressArgs, list_by_user, find_address, set_addresses, insert_address,
  repo_set_default, apply_update, create, find_owned_or_fail, update_address, remove, set_default,
}
use bomboli_server.Users.Addresses.Counts.{
  defaults, HasOneDefault, defaults-clear, defaults-apply_update, defaults-delete, holders_unique,
  made_default, defaults-made_default, defaults-made_default_other,
}

-- A request of a user.
pub data Request : Type 0 where
  creates : CreateAddressArgs → Request
  updates : ℕ → UpdateAddressArgs → Request
  removes sets_default : ℕ → Request

unfoldable pub respond : Env → ℕ → Request → Action ⊤
respond env actor (Request.creates args) = done (create env actor args)
respond env actor (Request.updates i args) = done (update_address actor i args)
respond env actor (Request.removes i) = remove actor i
respond env actor (Request.sets_default i) = done (set_default actor i)

find_owned_or_fail-pure : (actor i : ℕ) (db : Db) → (find_owned_or_fail actor i db).1 ≡ db
unfolding find_owned_or_fail get_by_supabase_id_or_fail
find_owned_or_fail-pure actor i db = ground arith

user-pure : (actor : ℕ) (db : Db) → (get_by_supabase_id_or_fail actor db).1 ≡ db
unfolding get_by_supabase_id_or_fail
user-pure actor db = ground arith

module _ (env : Env) (actor : ℕ) (db : Db) (one : HasOneDefault db) where
  insert_address-one : (row : Address) → HasOneDefault (insert_address row db).1
  unfolding insert_address defaults sum_by
  insert_address-one row v = ground (arith, one v, defaults-clear row.user_id v db.addresses)

  create-one : (args : CreateAddressArgs) → HasOneDefault (create env actor args db).1
  unfolding create
  create-one args v = elim (Run-cases (get_by_supabase_id_or_fail actor db)) [
    | inr (e, db₁, k) ↦
        let ends : (create env actor args db).1 ≡ db = ground (arith, k, user-pure actor db) in
        rw ends (one v)
    | inl (user, db₁, k) ↦
        let row : Address = record {
          id = env.fresh 0;
          user_id = user.id;
          label = args.label;
          formatted = args.formatted;
          location = args.location;
          gate_code = args.gate_code;
          floor = args.floor;
          delivery_instructions = args.delivery_instructions;
          is_default = or_default (is_empty (list_by_user user.id db)) args.is_default;
          created_at = env.now;
        } in
        let ends : (create env actor args db).1 ≡ (insert_address row db).1 =
          ground (arith, k, user-pure actor db) in
        rw ends (insert_address-one row v)
  ]

  update_address-one :
      (i : ℕ) (args : UpdateAddressArgs) → HasOneDefault (update_address actor i args db).1
  unfolding update_address
  update_address-one i args v = elim (Run-cases (find_owned_or_fail actor i db)) [
    | inr (e, db₁, k) ↦
        let ends : (update_address actor i args db).1 ≡ db =
          ground (arith, k, find_owned_or_fail-pure actor i db) in
        rw ends (one v)
    | inl (row, db₁, k) ↦
        let ends : (update_address actor i args db).1
            ≡ set_addresses (update (by_id i) (apply_update args) db.addresses) db =
          ground (arith, k, find_owned_or_fail-pure actor i db) in
        rw (ends, defaults-apply_update i v args db.addresses) (one v)
  ]

  remove-one : (i : ℕ) → HasOneDefault (remove actor i db).1
  unfolding remove
  remove-one i v = elim (Run-cases (find_owned_or_fail actor i db)) [
    | inr (e, db₁, k) ↦
        let ends : (remove actor i db).1 ≡ db =
          ground (arith, k, find_owned_or_fail-pure actor i db) in
        rw ends (one v)
    | inl (row, db₁, k) ↦
        let ends : (remove actor i db).1 ≡ set_addresses (delete (by_id i) db.addresses) db =
          ground (arith, k, find_owned_or_fail-pure actor i db) in
        rw ends (ground (arith, one v, defaults-delete (by_id i) v db.addresses))
  ]

  made_default-one :
      (u i : ℕ)
      → UniqueIds db.addresses
      → HasOneDefault (set_addresses (made_default u i db.addresses) db)
  made_default-one u i unique v = elim (Bool-cases (v == u)) [
    | inl this ↦
        let at_u : v ≡ u = ground (arith, this) in
        rw at_u (
          ground
            (arith, defaults-made_default u i db.addresses, holders_unique i db.addresses unique))
    | inr other ↦
        let ne : v ≢ u = λ e. ground (arith, other, e) in
        rw (defaults-made_default_other u i v db.addresses ne) (one v)
  ]

  set_default-states :
      (i : ℕ)
      → ((set_default actor i db).1 ≡ db)
        ⊎ ((u : ℕ) × ((set_default actor i db).1
              ≡ set_addresses (made_default u i db.addresses) db))
  unfolding set_default repo_set_default
  set_default-states i = elim (Run-cases (get_by_supabase_id_or_fail actor db)) [
    | inr (e, db₁, k) ↦ inl (ground (arith, k, user-pure actor db))
    | inl (user, db₁, k) ↦ elim (Option-cases (find_address i db)) [
      | inl f ↦ inl (ground (arith, k, user-pure actor db, f))
      | inr (row, f) ↦ elim (Bool-cases (row.user_id == user.id)) [
        | inr other ↦ inl (ground (arith, k, user-pure actor db, f, other))
        | inl own ↦ inr (user.id, ground (arith, k, user-pure actor db, f, own))
      ]
    ]
  ]

  set_default-one : (i : ℕ) → UniqueIds db.addresses → HasOneDefault (set_default actor i db).1
  set_default-one i unique v = elim (set_default-states i) [
    | inl same ↦ rw same (one v)
    | inr (u, wrote) ↦ rw wrote (made_default-one u i unique v)
  ]

-- Whatever a user asks of the addresses, allowed or not, no user ever has two default addresses; if
-- that held before and no two addresses have one id.
pub respond-HasOneDefault :
    (env : Env) (actor : ℕ) (request : Request) (db : Db)
    → HasOneDefault db
    → UniqueIds db.addresses
    → HasOneDefault (respond env actor request db).1
unfolding respond
respond-HasOneDefault env actor (Request.creates args) db one u v =
    rw (done-state (create env actor args) db) (create-one env actor db one args v)
respond-HasOneDefault env actor (Request.updates i args) db one u v =
    rw (done-state (update_address actor i args) db) (update_address-one env actor db one i args v)
respond-HasOneDefault env actor (Request.removes i) db one u v = remove-one env actor db one i v
respond-HasOneDefault env actor (Request.sets_default i) db one u v =
    rw (done-state (set_default actor i) db) (set_default-one env actor db one i u v)
