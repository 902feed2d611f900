-- ===== src/Deliverers.antt =====
-- Delivery partners: src/modules/deliverers/deliverers.service.ts over deliverers.repository.ts,
-- and the ETA of src/common/geo/distance.ts.
pub mod Phone
pub mod Assignments
use Prim.Native.Nat.{min}
use Prim.Native.String.{String as Text}
use bomboli_server.Prelude.{
  ℕ, zero, suc, ◌+◌, ◌-◌, ◌*◌, ◌==◌, leb, max, Bool, true, false, not, is_none, String, Option,
  none, some, List, [], ◌∷◌, ◌++◌, length, take, drop, find, update, by_id, map_some, if◌then◌else◌,
}
use bomboli_server.Db.{
  Db, Env, User, Order, OrderItem, Seller, Listing, Deliverer, Point, VehicleType, OrderStatus,
  Error, ErrorCode, Action, pure, gets, or_throw, throw_if, modify, ◌>>=◌, ◌>>◌, eq_order_status,
  is_delivery, user_key, order_key, deliverer_key, seller_key, listing_key,
}
use bomboli_server.Users.{get_by_supabase_id_or_fail}

-- `DeliverersRepository.findById` and `findByUserId`
unfoldable pub find_by_id : ℕ → Db → Option Deliverer
find_by_id i db = find (by_id i) db.deliverers

unfoldable pub find_by_user_id : ℕ → Db → Option Deliverer
find_by_user_id user_id db = find (λ d. d.user_id == user_id) db.deliverers

unfoldable pub find_deliverer_id_by_user_id : ℕ → Db → Option ℕ
unfolding find_by_user_id
find_deliverer_id_by_user_id user_id db = map_some (λ d. d.id) (find_by_user_id user_id db)

module _ {ℓ} {A : Type ℓ} where
  abbrev pub replicate : ℕ → A → List A
  replicate zero a = []
  replicate (suc n) a = a ∷ replicate n a

-- The bullet that stands for a hidden character, U+2022.
abbrev pub dot : ℕ
dot = 8226

-- `maskPhone`, on the code units of the number; `slice(-4)` is the last four.
unfoldable pub mask_phone : List ℕ → List ℕ
mask_phone phone =
    if leb (length phone) 4
    then phone
    else (let tail = drop (length phone - 4) phone in
        let head = take (min 4 (length phone - 4)) phone in
        head ++ (replicate (length phone - length head - length tail) dot ++ tail))

pub record DelivererSummary : Type 0 where
  pub id : ℕ
  pub display_name : Option String
  pub avatar_url : Option String
  pub vehicle_type : VehicleType
  pub phone_masked : List ℕ

unfoldable join_some : Option (Option String) → Option String
join_some none = none
join_some (some o) = o

unfoldable pub summary_of : Deliverer → Option User → DelivererSummary
unfolding join_some
summary_of row user = record {
  id = row.id;
  display_name = join_some (map_some (λ u. u.display_name) user);
  avatar_url = join_some (map_some (λ u. u.avatar_url) user);
  vehicle_type = row.vehicle_type;
  phone_masked = row.phone_masked;
}

-- `summaryFor`
unfoldable pub summary_for : ℕ → Db → Option DelivererSummary
unfolding find_by_id summary_of
summary_for i db = map_some (λ d. summary_of d (find (by_id d.user_id) db.users)) (find_by_id i db)

-- `DelivererResponseDto`
pub record DelivererResponse : Type 0 where
  pub row : Deliverer
  pub display_name : Option String
  pub avatar_url : Option String

-- `compose`
unfoldable pub compose_deliverer : Deliverer → Db → DelivererResponse
unfolding join_some
compose_deliverer row db = record {
  row = row;
  display_name = join_some (map_some (λ u. u.display_name) (find (by_id row.user_id) db.users));
  avatar_url = join_some (map_some (λ u. u.avatar_url) (find (by_id row.user_id) db.users));
}

abbrev new_deliverer : Env → ℕ → VehicleType → List ℕ → Deliverer
new_deliverer env user_id vehicle_type phone = record {
  id = env.fresh 0;
  user_id = user_id;
  vehicle_type = vehicle_type;
  phone_masked = mask_phone phone;
  available = false;
  current_location = none;
}

-- `!target.phone`: null and the empty text are no phone.
unfoldable has_phone : Option String → Bool
has_phone none = false
has_phone (some Text.[]) = false
has_phone (some (Text.◌∷◌ c t)) = true

-- `createByAdmin`, where the number comes as a text and as its code units.
unfoldable create_by_admin : Env → ℕ → VehicleType → String → List ℕ → Action DelivererResponse
unfolding find_by_user_id compose_deliverer has_phone
create_by_admin env user_id vehicle_type phone units = do
  target ← or_throw Error.not_found (← gets (λ db. find (by_id user_id) db.users))
  existing ← gets (find_by_user_id user_id)
  throw_if (not (is_none existing)) (Error.domain ErrorCode.conflict 409)
  modify (λ db. record db {
    deliverers = new_deliverer env user_id vehicle_type units ∷ db.deliverers;
  })
  modify (λ db. if has_phone target.phone then db else record db {
    users = update (by_id user_id) (λ u. record u { phone = some phone }) db.users;
  })
  gets (compose_deliverer (new_deliverer env user_id vehicle_type units))

-- `getMyProfile`
unfoldable pub get_my_profile : ℕ → Action DelivererResponse
get_my_profile actor = do
  user ← get_by_supabase_id_or_fail actor
  row ← or_throw Error.not_found (← gets (find_by_user_id user.id))
  gets (compose_deliverer row)

unfoldable require_own_row : ℕ → Action Deliverer
unfolding find_by_user_id
require_own_row actor = do
  user ← get_by_supabase_id_or_fail actor
  or_throw Error.forbidden (← gets (find_by_user_id user.id))

unfoldable set_deliverers : List Deliverer → Db → Db
set_deliverers rows db = record db { deliverers = rows }

-- `setMyAvailable`
unfoldable set_my_available : ℕ → Bool → Action DelivererResponse
unfolding require_own_row set_deliverers find_by_id
set_my_available actor available = do
  row ← require_own_row actor
  modify (λ db.
      set_deliverers (update (by_id row.id) (λ d. record d { available = available }) db.deliverers)
        db)
  updated ← or_throw Error.missing_record (← gets (find_by_id row.id))
  gets (compose_deliverer updated)

-- `updateMyLocation`
unfoldable update_my_location : ℕ → Point → Action DelivererResponse
unfolding require_own_row set_deliverers find_by_id
update_my_location actor p = do
  row ← require_own_row actor
  modify (λ db.
      set_deliverers
        (update (by_id row.id) (λ d. record d { current_location = some p }) db.deliverers) db)
  updated ← or_throw Error.missing_record (← gets (find_by_id row.id))
  gets (compose_deliverer updated)

-- `etaFromDistanceKm`, where the parameter is `Math.round(distanceKm * 15)` of the distance that
-- `haversineKm` computes in doubles.
unfoldable pub eta_from_minutes : ℕ → ℕ → ℕ
eta_from_minutes now rounded_minutes = now + max 5 rounded_minutes * 60 * 1000

-- The query of `lookupPickupPoint`: an order item whose listing is there, the first one.
unfoldable pub first_item_location : ℕ → List OrderItem → List Listing → Option Point
first_item_location order_id [] listings = none
first_item_location order_id (i ∷ items) listings =
    let rest = first_item_location order_id items listings in
    if i.order_id == order_id
    then elim (find (by_id i.listing_id) listings) [ none ↦ rest | some l ↦ some l.location ]
    else rest

unfoldable pub pickup_of_seller : Option Seller → Option Point
pickup_of_seller none = none
pickup_of_seller (some s) = s.pickup_point

unfoldable pub lookup_pickup_point : ℕ → ℕ → Action Point
unfolding first_item_location pickup_of_seller
lookup_pickup_point seller_id order_id db =
    elim (pickup_of_seller (find (by_id seller_id) db.sellers)) [
      | some p ↦ pure p db
      | none ↦
          or_throw (Error.domain ErrorCode.conflict 409)
            (first_item_location order_id db.order_items db.listings) db
    ]

pub record Assignment : Type 0 where
  pub order_id : ℕ
  pub deliverer_id : ℕ
  pub eta_at : ℕ

-- The columns that `order.update` writes, `@updatedAt` among them.
abbrev pub assign_row : Env → ℕ → ℕ → Order → Order
assign_row env deliverer_id eta o = record o {
  deliverer_id = some deliverer_id;
  eta_at = some eta;
  updated_at = env.now;
}

-- `assignToOrder`, over the travel time in rounded minutes between two points.
unfoldable pub assign_to_order : (Point → Point → ℕ) → Env → ℕ → ℕ → Action Assignment
unfolding lookup_pickup_point find_by_id eta_from_minutes
assign_to_order travel_minutes env order_id deliverer_id = do
  order ← or_throw Error.not_found (← gets (λ db. find (by_id order_id) db.orders))
  throw_if (not (is_delivery order.fulfillment_type)) (Error.domain ErrorCode.conflict 409)
  throw_if (not (eq_order_status order.status OrderStatus.preparing))
      (Error.domain ErrorCode.conflict 409)
  deliverer ← or_throw Error.not_found (← gets (find_by_id deliverer_id))
  dest ← or_throw (Error.domain ErrorCode.conflict 409) order.address_snapshot
  pickup ← lookup_pickup_point order.seller_id order.id
  let eta_at = eta_from_minutes env.now (travel_minutes pickup dest.point)
  modify (λ db. record db {
    orders = update (by_id order.id) (assign_row env deliverer.id eta_at) db.orders;
  })
  pure (record { order_id = order.id; deliverer_id = deliverer.id; eta_at = eta_at })
