-- ===== src/Cart.antt =====
-- The buyer's cart: src/modules/cart/cart.service.ts. The rows of `cart_items` stand in the order
-- of their creation, which is the order of `orderBy: { createdAt: 'asc' }`.
pub mod Response
pub mod Fits
pub mod Consistent
pub mod Requests
use bomboli_server.Prelude.{
  ⊤, ℕ, ◌+◌, ◌*◌, ◌==◌, Bool, true, false, not, ◌&&◌, String, Option, none, some, List, [], ◌∷◌,
  ◌++◌, map, is_empty, sum_by, find, update, delete, by_id, map_some, is_some_of, if◌then◌else◌,
}
use bomboli_server.Db.{
  Db, Env, Listing, ListingStatus, Cart, CartItem, Currency, published, Error, ErrorCode, Action,
  pure, gets, or_throw, throw_if, modify, transaction, ◌>>=◌, ◌>>◌, eq_currency, eq_listing_status,
  listing_key, cart_key, cart_item_key, seller_key,
}
use bomboli_server.Users.{get_by_supabase_id_or_fail}
use bomboli_server.Cart.Response.{CartResponse, compose_cart}
use bomboli_server.Orders.Checkout.{cart_items_of, live, first_photo}

pub record ItemArgs : Type 0 where
  pub listing_id : ℕ
  pub quantity : ℕ
  pub options : Option String

-- `cart.findUnique({ where: { userId } })`
unfoldable pub cart_of_user : ℕ → Db → Option Cart
cart_of_user user_id db = find (λ c. c.user_id == user_id) db.carts

unfoldable pub insert_cart : Cart → Action Cart
insert_cart c = do modify (λ db. record db { carts = c ∷ db.carts }); pure c

unfoldable cart_or_new : Env → ℕ → Option Cart → Action Cart
unfolding insert_cart
cart_or_new env user_id (some c) = pure c
cart_or_new env user_id none =
    insert_cart (record { id = env.fresh 0; user_id = user_id; seller_id = none; currency = none })

-- `loadCartWithItems`, which creates the cart of a first-time reader.
unfoldable pub load_cart : Env → ℕ → Action Cart
unfolding cart_or_new cart_of_user
load_cart env user_id = do cart_or_new env user_id (← gets (cart_of_user user_id))

-- `requirePurchasableListing`
unfoldable pub require_purchasable_listing : ℕ → Action Listing
unfolding live
require_purchasable_listing i = do
  listing ← or_throw Error.not_found (live (← gets (λ db. find (by_id i) db.listings)))
  throw_if (not (eq_listing_status listing.status published)) (Error.domain ErrorCode.conflict 409)
  pure listing

-- `rejectSelfPurchase`
unfoldable pub reject_self_purchase : ℕ → ℕ → Action ⊤
reject_self_purchase user_id seller_id = do
  seller ← gets (λ db. find (by_id seller_id) db.sellers)
  throw_if (is_some_of user_id (map_some (λ s. s.user_id) seller))
      (Error.domain ErrorCode.conflict 409)

-- The first three lines of `addItem` and of `replace`: who buys which listing.
unfoldable pub check_purchase : ℕ → ℕ → Action (ℕ × Listing)
unfolding require_purchasable_listing reject_self_purchase
check_purchase actor listing_id = do
  user ← get_by_supabase_id_or_fail actor
  listing ← require_purchasable_listing listing_id
  reject_self_purchase user.id listing.seller_id
  pure (user.id, listing)

-- `requireOwnedItem`
unfoldable pub require_owned_item : ℕ → ℕ → Action CartItem
require_owned_item user_id i = do
  item ← or_throw Error.not_found (← gets (λ db. find (by_id i) db.cart_items))
  cart ← or_throw Error.missing_record (← gets (λ db. find (by_id item.cart_id) db.carts))
  throw_if (not (cart.user_id == user_id)) Error.not_found
  pure item

-- The first two lines of `updateItem` and of `removeItem`: the caller and the item.
unfoldable pub check_item : ℕ → ℕ → Action (ℕ × CartItem)
unfolding require_owned_item
check_item actor i = do
  user ← get_by_supabase_id_or_fail actor
  item ← require_owned_item user.id i
  pure (user.id, item)

-- `existing?.sellerId && existing.sellerId !== listing.sellerId`
unfoldable pub has_other_seller : ℕ → Option Cart → Bool
has_other_seller s none = false
has_other_seller s (some c) = elim c.seller_id [ none ↦ false | some t ↦ not (t == s) ]

unfoldable pub has_other_currency : Currency → Option Cart → Bool
has_other_currency m none = false
has_other_currency m (some c) = elim c.currency [ none ↦ false | some n ↦ not (eq_currency n m) ]

abbrev pub lock_to : Listing → Cart → Cart
lock_to l c = record c { seller_id = some l.seller_id; currency = some l.currency }

unfoldable pub lock_cart : Env → ℕ → Listing → Option Cart → Action Cart
unfolding insert_cart
lock_cart env user_id listing none = insert_cart (record {
  id = env.fresh 0;
  user_id = user_id;
  seller_id = some listing.seller_id;
  currency = some listing.currency;
})
lock_cart env user_id listing (some c) = do
  modify (λ db. record db { carts = update (by_id c.id) (lock_to listing) db.carts })
  pure (lock_to listing c)

abbrev pub is_line : ℕ → ℕ → CartItem → Bool
is_line cart_id listing_id i = i.cart_id == cart_id && i.listing_id == listing_id

abbrev pub add_quantity : ℕ → CartItem → CartItem
add_quantity q i = record i { quantity = i.quantity + q }

abbrev pub new_item : Env → ℕ → ItemArgs → CartItem
new_item env cart_id args = record {
  id = env.fresh 1;
  cart_id = cart_id;
  listing_id = args.listing_id;
  quantity = args.quantity;
  options = args.options;
}

-- `cartItem.upsert` by the cart and the listing.
unfoldable pub upsert_rows : Env → ℕ → ItemArgs → Option CartItem → List CartItem → List CartItem
upsert_rows env cart_id args (some _) rows =
    update (is_line cart_id args.listing_id) (add_quantity args.quantity) rows
upsert_rows env cart_id args none rows = rows ++ new_item env cart_id args ∷ []

unfoldable pub upsert_item : Env → ℕ → ItemArgs → Action ⊤
unfolding upsert_rows
upsert_item env cart_id args = modify (λ db. record db {
  cart_items =
      upsert_rows env cart_id args (find (is_line cart_id args.listing_id) db.cart_items)
        db.cart_items;
})

-- The transaction of `addItem`.
unfoldable pub put_in_cart : Env → ℕ → Listing → ItemArgs → Action Cart
unfolding has_other_seller has_other_currency lock_cart upsert_item cart_of_user
put_in_cart env user_id listing args = do
  existing ← gets (cart_of_user user_id)
  throw_if (has_other_seller listing.seller_id existing)
      (Error.domain ErrorCode.cart_seller_conflict 409)
  throw_if (has_other_currency listing.currency existing) (Error.domain ErrorCode.conflict 409)
  cart ← lock_cart env user_id listing existing
  upsert_item env cart.id args
  pure cart

unfoldable pub add_item : Env → ℕ → ItemArgs → Action CartResponse
unfolding put_in_cart load_cart compose_cart
add_item env actor args = do
  checked ← check_purchase actor args.listing_id
  transaction (put_in_cart env checked.0 checked.1 args)
  cart ← load_cart env checked.0
  gets (compose_cart cart)

abbrev pub set_quantity : ℕ → CartItem → CartItem
set_quantity q r = record r { quantity = q }

unfoldable pub update_item : Env → ℕ → ℕ → ℕ → Action CartResponse
update_item env actor i quantity = do
  checked ← check_item actor i
  modify (λ db. record db { cart_items = update (by_id i) (set_quantity quantity) db.cart_items })
  cart ← load_cart env checked.0
  gets (compose_cart cart)

abbrev pub unlock : Cart → Cart
unlock c = record c { seller_id = none; currency = none }

abbrev unlock_if_empty : ℕ → Db → Db
unlock_if_empty cart_id db =
    if is_empty (cart_items_of cart_id db.cart_items)
    then record db { carts = update (by_id cart_id) unlock db.carts }
    else db

-- The transaction of `removeItem`.
unfoldable pub take_out : ℕ → ℕ → Action ⊤
take_out i cart_id = do
  modify (λ db. record db { cart_items = delete (by_id i) db.cart_items })
  modify (unlock_if_empty cart_id)

unfoldable pub remove_item : Env → ℕ → ℕ → Action CartResponse
unfolding take_out
remove_item env actor i = do
  checked ← check_item actor i
  transaction (take_out i checked.1.cart_id)
  cart ← load_cart env checked.0
  gets (compose_cart cart)

unfoldable pub clear_cart : Option Cart → Action ⊤
clear_cart none = pure tt
clear_cart (some c) =
    modify (λ db. record db { cart_items = delete (λ i. i.cart_id == c.id) db.cart_items })

-- The transaction of `replace`.
unfoldable pub swap : Env → ℕ → Listing → ItemArgs → Action ⊤
unfolding clear_cart lock_cart cart_of_user
swap env user_id listing args = do
  existing ← gets (cart_of_user user_id)
  clear_cart existing
  cart ← lock_cart env user_id listing existing
  modify (λ db. record db { cart_items = db.cart_items ++ new_item env cart.id args ∷ [] })

unfoldable pub replace : Env → ℕ → ItemArgs → Action CartResponse
unfolding swap
replace env actor args = do
  checked ← check_purchase actor args.listing_id
  transaction (swap env checked.0 checked.1 args)
  cart ← load_cart env checked.0
  gets (compose_cart cart)

unfoldable pub get_mine : Env → ℕ → Action CartResponse
get_mine env actor = do
  user ← get_by_supabase_id_or_fail actor
  cart ← load_cart env user.id
  gets (compose_cart cart)
