-- ===== src/Orders/Access.antt =====
-- Reading an order: `getById`, `compose`, and the check `requireSellerOrAssignedDelivererOf` of
-- src/modules/orders/orders.service.ts.
pub mod Roles
use bomboli_server.Prelude.{
  ℕ, ◌*◌, ◌==◌, Bool, false, not, ◌&&◌, ◌||◌, String, Option, none, some, List, map, find, select,
  by_id, map_some, is_some_of, if◌then◌else◌,
}
use bomboli_server.Db.{
  Db, User, Seller, Order, OrderItem, Error, Action, pure, gets, or_throw, throw_if, throw, ◌>>=◌,
  ◌>>◌, user_key, seller_key, order_key,
}
use bomboli_server.Users.{
  find_by_supabase_id, get_by_supabase_id_or_fail, lookup_seller_supabase_id,
}
use bomboli_server.Deliverers.{DelivererSummary, find_deliverer_id_by_user_id, summary_for}

unfoldable pub find_order : ℕ → Db → Option Order
find_order i db = find (by_id i) db.orders

-- `include: { items: true }`
unfoldable pub items_of : ℕ → Db → List OrderItem
items_of order_id db = select (λ i. i.order_id == order_id) db.order_items

pub record SellerSummary : Type 0 where
  pub id : ℕ
  pub display_name : Option String
  pub avatar_url : Option String
  pub banner_url : Option String

pub record ItemResponse : Type 0 where
  pub item : OrderItem
  pub line_total_cents : ℕ

-- `OrderResponseDto`: the columns of the order, and what is looked up for it.
pub record OrderResponse : Type 0 where
  pub order : Order
  pub seller : Option SellerSummary
  pub deliverer : Option DelivererSummary
  pub items : List ItemResponse

unfoldable pub compose_item : OrderItem → ItemResponse
compose_item i = record { item = i; line_total_cents = i.price_cents_snapshot * i.quantity }

unfoldable user_text : (User → Option String) → Option User → Option String
user_text f none = none
user_text f (some u) = f u

unfoldable pub seller_summary : Db → Seller → SellerSummary
unfolding user_text
seller_summary db s =
    let user = find (by_id s.user_id) db.users in
    record {
      id = s.id;
      display_name = user_text (λ u. u.display_name) user;
      avatar_url = user_text (λ u. u.avatar_url) user;
      banner_url = s.banner_url;
    }

unfoldable deliverer_summary : Option ℕ → Db → Option DelivererSummary
deliverer_summary none db = none
deliverer_summary (some d) db = summary_for d db

unfoldable pub compose : Order → Db → OrderResponse
unfolding seller_summary deliverer_summary items_of compose_item
compose order db = record {
  order = order;
  seller = map_some (seller_summary db) (find (by_id order.seller_id) db.sellers);
  deliverer = deliverer_summary order.deliverer_id db;
  items = map compose_item (items_of order.id db);
}

unfoldable pub get_by_id : ℕ → ℕ → Action OrderResponse
unfolding find_order
get_by_id actor i = do
  user ← get_by_supabase_id_or_fail actor
  order ← or_throw Error.not_found (← gets (find_order i))
  seller_sub ← gets (lookup_seller_supabase_id order.seller_id)
  throw_if (not (order.buyer_id == user.id) && not (is_some_of actor seller_sub)) Error.forbidden
  gets (compose order)

-- Whether the actor is the deliverer that the order names.
unfoldable pub is_assigned_deliverer : ℕ → Order → Db → Bool
is_assigned_deliverer actor order db = elim order.deliverer_id [
  | none ↦ false
  | some d ↦ elim (find_by_supabase_id actor db) [
    | none ↦ false
    | some u ↦ is_some_of d (find_deliverer_id_by_user_id u.id db)
  ]
]

unfoldable pub require_seller_or_assigned_deliverer : ℕ → ℕ → Action Order
unfolding find_order is_assigned_deliverer
require_seller_or_assigned_deliverer actor i = do
  order ← or_throw Error.not_found (← gets (find_order i))
  seller_sub ← gets (lookup_seller_supabase_id order.seller_id)
  assigned ← gets (is_assigned_deliverer actor order)
  (if is_some_of actor seller_sub || assigned then pure order else throw Error.forbidden)
