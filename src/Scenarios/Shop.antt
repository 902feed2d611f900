-- ===== src/Scenarios/Shop.antt =====
-- The cart, the listings, the addresses and the deliverers of the sample shop.
use bomboli_server.Prelude.{
  take, drop, ℕ, ◌+◌, ◌*◌, ◌≡◌, ◌-◌, ◌⊎◌, refl, true, false, some, none, List, [], ◌∷◌, ◌++◌, find,
  sum_by, length, UniqueIds, arith,
}
use bomboli_server.Db.{
  Db, Point, Address, Order, Deliverer, AddressSnapshot, Error, ok, err, delivery, moto,
  listing_key, cart_key, address_key, order_key,
}
use bomboli_server.Cart.Fits.{IsConsistent}
use bomboli_server.Cart.Consistent.{IsReady}
use bomboli_server.Cart.Requests.{Request, respond, respond-IsConsistent}
use bomboli_server.Listings.{find_any_listing}
use bomboli_server.Listings.Owned as Owned
use bomboli_server.Listings.Writes.{Kept}
use bomboli_server.Listings.Owned.{respond-Kept}
use bomboli_server.Users.Addresses.Defaults as Defaults
use bomboli_server.Users.Addresses.Counts.{defaults, HasOneDefault}
use bomboli_server.Users.Addresses.Defaults.{respond-HasOneDefault}
use bomboli_server.Deliverers.{replicate, dot, mask_phone, assign_to_order}
use bomboli_server.Deliverers.Phone.{mask_phone-hides}
use bomboli_server.Deliverers.Assignments.{
  IsAssignable, Minutes, assigned_db, assign_to_order-cases,
}
use bomboli_server.Scenarios.Data.{env, db, basket, rice, beans, open_order}

abbrev one_more : Request
one_more = Request.adds (record { listing_id = 7; quantity = 1; options = none })

db-IsConsistent : IsConsistent db
unfolding find
db-IsConsistent = (
  record {
    cart = basket;
    listing = rice;
    has_cart = refl;
    has_listing = refl;
    of_seller = refl;
    in_currency = refl;
  },
  (
    record {
      cart = basket;
      listing = beans;
      has_cart = refl;
      has_listing = refl;
      of_seller = refl;
      in_currency = refl;
    },
    tt,
  ),
)

db-IsReady : IsReady env db
unfolding find
db-IsReady = record { unique = (tt, tt); new_id = refl }

respond-IsConsistent_example : IsConsistent (respond env 11 one_more db).1
respond-IsConsistent_example = respond-IsConsistent env 11 one_more db db-IsConsistent db-IsReady

new_listing_id : find_any_listing (env.fresh 0) db ≡ none
unfolding find_any_listing find
new_listing_id = refl

respond-Kept_example : Kept 12 db (Owned.respond env 12 (Owned.Request.archives 7) db).1
respond-Kept_example = respond-Kept env 12 (Owned.Request.archives 7) db new_listing_id

abbrev home : Address
home = record {
  id = 60;
  user_id = 1;
  label = "Home";
  formatted = "Avenue 1";
  location = record { lat = 1; lng = 2 };
  gate_code = none;
  floor = none;
  delivery_instructions = none;
  is_default = true;
  created_at = 1;
}

abbrev two_addresses : Db
two_addresses = record db { addresses = home ∷ record home { id = 61; is_default = false } ∷ [] }

has_one : HasOneDefault two_addresses
unfolding defaults sum_by
has_one v = ground arith

addresses-UniqueIds : UniqueIds two_addresses.addresses
addresses-UniqueIds = ((ground arith, tt), (tt, tt))

respond-HasOneDefault_example :
    HasOneDefault (Defaults.respond env 11 (Defaults.Request.sets_default 61) two_addresses).1
respond-HasOneDefault_example =
    respond-HasOneDefault env 11 (Defaults.Request.sets_default 61) two_addresses has_one
      addresses-UniqueIds

abbrev number : List ℕ
number = 43 ∷ 50 ∷ 52 ∷ 51 ∷ 56 ∷ 49 ∷ 50 ∷ 51 ∷ 52 ∷ []

mask_phone-hides_example :
    (mask_phone number
      ≡ take 4 number ++ (replicate (length number - 8) dot ++ drop (length number - 4) number))
    × (length (mask_phone number) ≡ length number)
mask_phone-hides_example = mask_phone-hides number (ground arith)

abbrev courier : Deliverer
courier = record {
  id = 70;
  user_id = 2;
  vehicle_type = moto;
  phone_masked = [];
  available = false;
  current_location = none;
}

abbrev with_courier : Db
with_courier = record db {
  orders =
      record open_order {
        fulfillment_type = delivery;
        address_snapshot = some (record {
          label = "Home";
          formatted = "Avenue 1";
          point = record { lat = 1; lng = 2 };
          gate_code = none;
          floor = none;
          delivery_instructions = none;
        });
      }
      ∷ [];
  deliverers = courier ∷ [];
}

abbrev half_hour : Point → Point → ℕ
half_hour a b = 30

assign_to_order-cases_example :
    ((order : Order) × (d : Deliverer) × (dest : AddressSnapshot) × (pickup : Point) × (m : ℕ)
      × IsAssignable with_courier order d 30 70 dest pickup
      × Minutes 30 m
      × (let eta = env.now + m * 60000 in
          assign_to_order half_hour env 30 70 with_courier ≡ (
            ok (record { order_id = order.id; deliverer_id = d.id; eta_at = eta }),
            assigned_db env order.id d.id eta with_courier,
          )))
    ⊎ ((e : Error) × (assign_to_order half_hour env 30 70 with_courier ≡ (err e, with_courier))
        × ((order : Order) (d : Deliverer) (dest : AddressSnapshot) (pickup : Point)
            → ¬ IsAssignable with_courier order d 30 70 dest pickup))
assign_to_order-cases_example = assign_to_order-cases half_hour env 30 70 with_courier
