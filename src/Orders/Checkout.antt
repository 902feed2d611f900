-- ===== src/Orders/Checkout.antt =====
-- `createFromCart` of src/modules/orders/orders.service.ts: from the caller's cart to an order.
pub mod Stock
pub mod Placed
pub mod Lines
pub mod Outcome
pub mod Effects
pub mod Available
use bomboli_server.Prelude.{
  ⊤, ℕ, suc, ◌+◌, ◌-◌, ◌*◌, ◌==◌, ltb, Bool, true, false, not, ◌||◌, String, Option, none, some,
  List, [], ◌∷◌, ◌++◌, is_empty, find, select, update, delete, by_id, is_none, or_default,
  if◌then◌else◌,
}
use bomboli_server.Db.{
  Db, Env, Point, Listing, Photo, Cart, CartItem, Order, OrderItem, Address, AddressSnapshot,
  Currency, FulfillmentType, OrderStatus, ListingStatus, published, sold_out, OrderEventName,
  order_event, Error, ErrorCode, Action, pure, gets, or_throw, throw, throw_if, modify, transaction,
  emit, ◌>>=◌, ◌>>◌, eq_currency, eq_listing_status, is_delivery, listing_key, cart_key,
}
use bomboli_server.Users.{get_by_supabase_id_or_fail}
use bomboli_server.Users.Addresses.{find_owned_or_fail}
use bomboli_server.Orders.Access.{OrderResponse, get_by_id}

pub record CreateOrderInput : Type 0 where
  pub fulfillment_type : FulfillmentType
  pub address_id : Option ℕ
  pub delivery_fee_cents : Option ℕ

-- `OrderItemCreateManyOrderInput`
pub record ItemData : Type 0 where
  pub listing_id : ℕ
  pub title_snapshot : String
  pub price_cents_snapshot : ℕ
  pub photo_url_snapshot : Option String
  pub quantity : ℕ
  pub options : Option String

unfoldable snapshot_of : Address → AddressSnapshot
snapshot_of a = record {
  label = a.label;
  formatted = a.formatted;
  point = a.location;
  gate_code = a.gate_code;
  floor = a.floor;
  delivery_instructions = a.delivery_instructions;
}

unfoldable delivery_address : ℕ → Option ℕ → Action (Option AddressSnapshot)
unfolding snapshot_of
delivery_address actor none = throw (Error.domain ErrorCode.validation_failed 400)
delivery_address actor (some i) = do
  addr ← find_owned_or_fail actor i
  pure (some (snapshot_of addr))

-- The address of the order, read before the transaction.
unfoldable pub resolve_address : ℕ → CreateOrderInput → Action (Option AddressSnapshot)
unfolding delivery_address
resolve_address actor dto =
    if is_delivery dto.fulfillment_type then delivery_address actor dto.address_id else pure none

-- `cart.items`
unfoldable pub cart_items_of : ℕ → List CartItem → List CartItem
cart_items_of cart_id = select (λ i. i.cart_id == cart_id)

unfoldable pub contains_id : ℕ → List CartItem → Bool
contains_id i [] = false
contains_id i (c ∷ items) = c.listing_id == i || contains_id i items

-- `SELECT … WHERE id = ANY(…) FOR UPDATE`
unfoldable pub lock_listings : List CartItem → List Listing → List Listing
unfolding contains_id
lock_listings items = select (λ l. contains_id l.id items)

-- The row of a listing that is neither missing nor deleted.
unfoldable pub live : Option Listing → Option Listing
live none = none
live (some l) = if is_none l.deleted_at then some l else none

unfoldable pub first_photo : List Photo → Option String
first_photo [] = none
first_photo (p ∷ _) = some p.url

-- The `UPDATE listings` of one cart item.
unfoldable pub take_stock : Env → Listing → ℕ → List Listing → List Listing
take_stock env listing new_qty = update (by_id listing.id) (λ l. record l {
  quantity_available = new_qty;
  status = if new_qty == 0 then sold_out else listing.status;
  updated_at = env.now;
})

unfoldable pub item_data : Listing → CartItem → ItemData
unfolding first_photo
item_data listing i = record {
  listing_id = listing.id;
  title_snapshot = listing.title;
  price_cents_snapshot = listing.price_cents;
  photo_url_snapshot = first_photo listing.photos;
  quantity = i.quantity;
  options = i.options;
}

-- One round of the loop over the cart's items, for a cart of the given seller and currency.
unfoldable pub reserve_item : Env → ℕ → Currency → List Listing → CartItem → Action ItemData
unfolding live take_stock item_data
reserve_item env seller currency locked i = do
  listing ← or_throw Error.not_found (live (find (by_id i.listing_id) locked))
  throw_if (not (eq_listing_status listing.status published)) (Error.domain ErrorCode.conflict 409)
  throw_if (not (listing.seller_id == seller)) (Error.domain ErrorCode.cart_seller_conflict 409)
  throw_if (ltb listing.quantity_available i.quantity) (Error.domain ErrorCode.out_of_stock 409)
  throw_if (not (eq_currency listing.currency currency)) (Error.domain ErrorCode.conflict 409)
  modify (λ db. record db {
    listings = take_stock env listing (listing.quantity_available - i.quantity) db.listings;
  })
  pure (item_data listing i)

-- The loop: the items of the order, and their subtotal.
unfoldable pub reserve_all :
    Env → ℕ → Currency → List Listing → List CartItem → Action (List ItemData × ℕ)
unfolding reserve_item
reserve_all env seller currency locked [] = pure ([], 0)
reserve_all env seller currency locked (i ∷ items) = do
  d ← reserve_item env seller currency locked i
  rest ← reserve_all env seller currency locked items
  pure (d ∷ rest.0, d.price_cents_snapshot * d.quantity + rest.1)

-- `items: { createMany }`; the order's own id comes first.
unfoldable pub order_items_from : Env → ℕ → ℕ → List ItemData → List OrderItem
order_items_from env order_id n [] = []
order_items_from env order_id n (d ∷ data_rows) =
    record {
      id = env.fresh n;
      order_id = order_id;
      listing_id = d.listing_id;
      title_snapshot = d.title_snapshot;
      price_cents_snapshot = d.price_cents_snapshot;
      photo_url_snapshot = d.photo_url_snapshot;
      quantity = d.quantity;
      options = d.options;
    }
    ∷ order_items_from env order_id (suc n) data_rows

unfoldable pub fee_of : CreateOrderInput → ℕ
fee_of dto = if is_delivery dto.fulfillment_type then or_default 0 dto.delivery_fee_cents else 0

unfoldable pub order_row :
    Env → CreateOrderInput → Option AddressSnapshot → ℕ → ℕ → Currency → ℕ → Order
unfolding fee_of
order_row env dto address buyer seller currency subtotal = record {
  id = env.fresh 0;
  buyer_id = buyer;
  seller_id = seller;
  status = OrderStatus.preparing;
  fulfillment_type = dto.fulfillment_type;
  address_snapshot = address;
  subtotal_cents = subtotal;
  discount_cents = 0;
  delivery_fee_cents = fee_of dto;
  total_cents = subtotal + fee_of dto;
  currency = currency;
  eta_at = none;
  deliverer_id = none;
  payment_id = none;
  created_at = env.now;
  updated_at = env.now;
}

abbrev pub unlock_cart : Cart → Cart
unlock_cart c = record c { seller_id = none; currency = none }

-- The largest value of the columns `Int`.
abbrev pub max_int : ℕ
max_int = 2147483647

-- The order and its items are written, and the cart is emptied. `order.create` throws where a sum is
-- too large for its column; the total is the largest of them.
unfoldable place_order : Env → Cart → Order → List ItemData → Action Order
unfolding order_items_from
place_order env cart order data_rows = do
  throw_if (ltb max_int order.total_cents) Error.upstream
  modify (λ db. record db {
    orders = order ∷ db.orders;
    order_items = order_items_from env order.id 1 data_rows ++ db.order_items;
  })
  modify (λ db. record db {
    cart_items = delete (λ i. i.cart_id == cart.id) db.cart_items;
    carts = update (by_id cart.id) unlock_cart db.carts;
  })
  pure order

-- The body of the transaction, for a user and the address of the order.
unfoldable pub checkout : Env → CreateOrderInput → Option AddressSnapshot → ℕ → Action Order
unfolding reserve_all lock_listings order_row place_order cart_items_of
checkout env dto address user_id = do
  cart ←
      or_throw (Error.domain ErrorCode.conflict 409)
        (← gets (λ db. find (λ c. c.user_id == user_id) db.carts))
  items ← gets (λ db. cart_items_of cart.id db.cart_items)
  throw_if (is_empty items) (Error.domain ErrorCode.conflict 409)
  seller ← or_throw (Error.domain ErrorCode.conflict 409) cart.seller_id
  currency ← or_throw (Error.domain ErrorCode.conflict 409) cart.currency
  locked ← gets (λ db. lock_listings items db.listings)
  reserved ← reserve_all env seller currency locked items
  place_order env cart (order_row env dto address user_id seller currency reserved.1) reserved.0

unfoldable pub create_from_cart : Env → ℕ → CreateOrderInput → Action OrderResponse
unfolding resolve_address checkout
create_from_cart env actor dto = do
  user ← get_by_supabase_id_or_fail actor
  address ← resolve_address actor dto
  created ← transaction (checkout env dto address user.id)
  emit (
      order_event OrderEventName.created (record {
        order_id = created.id;
        buyer_id = created.buyer_id;
        seller_id = created.seller_id;
        status = created.status;
        previous_status = none;
        at = created.created_at;
      }))
  get_by_id actor created.id
