-- ===== src/Users/Addresses.antt =====
-- Saved addresses: src/modules/users/addresses/addresses.service.ts over
-- addresses.repository.ts.
pub mod Counts
pub mod Defaults
use bomboli_server.Prelude.{
  ℕ, ◌==◌, Bool, true, false, not, ◌&&◌, String, Option, none, some, List, ◌∷◌, is_empty, find,
  select, update, delete, by_id, or_default, if◌then◌else◌, ⊤,
}
use bomboli_server.Db.{
  Db, Env, Address, Point, Error, Action, pure, gets, or_throw, throw_if, modify, transaction,
  ◌>>=◌, ◌>>◌, address_key,
}
use bomboli_server.Users.{get_by_supabase_id_or_fail}

pub record CreateAddressArgs : Type 0 where
  pub label : String
  pub formatted : String
  pub location : Point
  pub gate_code : Option String
  pub floor : Option String
  pub delivery_instructions : Option String
  pub is_default : Option Bool

-- A field left out keeps its column; `some none` writes NULL.
pub record UpdateAddressArgs : Type 0 where
  pub label : Option String
  pub formatted : Option String
  pub lat : Option ℕ
  pub lng : Option ℕ
  pub gate_code : Option (Option String)
  pub floor : Option (Option String)
  pub delivery_instructions : Option (Option String)

-- The rows of `AddressesRepository.listByUser`; their order is that of the table.
unfoldable pub list_by_user : ℕ → Db → List Address
list_by_user user_id db = select (λ a. a.user_id == user_id) db.addresses

unfoldable pub find_address : ℕ → Db → Option Address
find_address i db = find (by_id i) db.addresses

abbrev pub set_addresses : List Address → Db → Db
set_addresses rows db = record db { addresses = rows }

abbrev pub clear_default : Address → Address
clear_default a = record a { is_default = false }

abbrev pub raise_default : Address → Address
raise_default a = record a { is_default = true }

-- `AddressesRepository.create`
unfoldable pub insert_address : Address → Action Address
insert_address row = transaction (do
  modify (λ db.
      set_addresses
        (if row.is_default
          then update (λ a. a.user_id == row.user_id) clear_default db.addresses
          else db.addresses)
        db)
  modify (λ db. set_addresses (row ∷ db.addresses) db)
  pure row)

-- `AddressesRepository.setDefault`
unfoldable pub repo_set_default : ℕ → ℕ → Action (Option Address)
unfolding find_address
repo_set_default user_id i = transaction (do
  modify (λ db.
      set_addresses
        (update (λ a. a.user_id == user_id && not (a.id == i)) clear_default db.addresses) db)
  modify (λ db.
      set_addresses (update (λ a. a.id == i && a.user_id == user_id) raise_default db.addresses) db)
  gets (find_address i))

unfoldable pub location_of : UpdateAddressArgs → Point → Point
location_of args old = elim args.lat [
  | none ↦ old
  | some lat ↦ elim args.lng [ none ↦ old | some lng ↦ record { lat = lat; lng = lng } ]
]

-- The `SET` clauses of `AddressesRepository.update`.
unfoldable pub apply_update : UpdateAddressArgs → Address → Address
unfolding location_of
apply_update args a = record a {
  label = or_default a.label args.label;
  formatted = or_default a.formatted args.formatted;
  location = location_of args a.location;
  gate_code = or_default a.gate_code args.gate_code;
  floor = or_default a.floor args.floor;
  delivery_instructions = or_default a.delivery_instructions args.delivery_instructions;
}

unfoldable pub create : Env → ℕ → CreateAddressArgs → Action Address
unfolding insert_address list_by_user
create env actor args = do
  user ← get_by_supabase_id_or_fail actor
  existing ← gets (list_by_user user.id)
  insert_address (record {
    id = env.fresh 0;
    user_id = user.id;
    label = args.label;
    formatted = args.formatted;
    location = args.location;
    gate_code = args.gate_code;
    floor = args.floor;
    delivery_instructions = args.delivery_instructions;
    is_default = or_default (is_empty existing) args.is_default;
    created_at = env.now;
  })

-- `findOwnedOrFail`; `ensureOwns` makes the same checks.
unfoldable pub find_owned_or_fail : ℕ → ℕ → Action Address
unfolding find_address
find_owned_or_fail actor i = do
  user ← get_by_supabase_id_or_fail actor
  row ← or_throw Error.not_found (← gets (find_address i))
  throw_if (not (row.user_id == user.id)) Error.forbidden
  pure row

unfoldable pub update_address : ℕ → ℕ → UpdateAddressArgs → Action Address
unfolding find_owned_or_fail apply_update
update_address actor i args = do
  find_owned_or_fail actor i
  modify (λ db. set_addresses (update (by_id i) (apply_update args) db.addresses) db)
  or_throw Error.not_found (← gets (find_address i))

unfoldable pub remove : ℕ → ℕ → Action ⊤
unfolding find_owned_or_fail
remove actor i = do
  find_owned_or_fail actor i
  modify (λ db. set_addresses (delete (by_id i) db.addresses) db)

unfoldable pub set_default : ℕ → ℕ → Action Address
unfolding repo_set_default find_address
set_default actor i = do
  user ← get_by_supabase_id_or_fail actor
  existing ← or_throw Error.not_found (← gets (find_address i))
  throw_if (not (existing.user_id == user.id)) Error.forbidden
  or_throw Error.not_found (← repo_set_default user.id i)
