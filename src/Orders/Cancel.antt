-- ===== src/Orders/Cancel.antt =====
-- `cancel`, `cancelBySystem` and `cancelInternal` of src/modules/orders/orders.service.ts, and
-- the listener of orders.payment-listener.ts.
pub mod Restock
pub mod Effects
pub mod Race
use bomboli_server.Prelude.{
  ⊤, ℕ, ◌+◌, ◌==◌, Bool, not, ◌&&◌, ◌||◌, Option, none, some, List, [], ◌∷◌, update, is_none,
  is_some_of, if◌then◌else◌,
}
use bomboli_server.Db.{
  Env, Order, OrderItem, Listing, OrderStatus, published, sold_out, OrderEventName, PaymentEvent,
  Error, ErrorCode, Action, pure, gets, or_throw, throw_if, modify, transaction, emit, ◌>>=◌, ◌>>◌,
  eq_order_status, eq_listing_status, order_key, listing_key,
}
use bomboli_server.Users.{get_by_supabase_id_or_fail, lookup_seller_supabase_id}
use bomboli_server.Orders.Access.{OrderResponse, find_order, items_of, compose}
use bomboli_server.Orders.Transition.{update_order, status_event}

-- The restocking `UPDATE listings` of one order item.
unfoldable pub restock_row : Env → ℕ → Listing → Listing
restock_row env quantity l = record l {
  quantity_available = l.quantity_available + quantity;
  status = if eq_listing_status l.status sold_out then published else l.status;
  updated_at = env.now;
}

abbrev pub is_live : ℕ → Listing → Bool
is_live i l = l.id == i && is_none l.deleted_at

unfoldable pub restock : Env → List OrderItem → List Listing → List Listing
unfolding restock_row
restock env [] listings = listings
restock env (i ∷ items) listings =
    restock env items (update (is_live i.listing_id) (restock_row env i.quantity) listings)

abbrev pub cancelled_row : Env → Order → Order
cancelled_row env o = record o { status = OrderStatus.cancelled; updated_at = env.now }

unfoldable pub cancel_internal : Env → ℕ → OrderStatus → Action Order
unfolding restock
cancel_internal env order_id previous = do
  updated ← transaction (do
    items ← gets (items_of order_id)
    modify (λ db. record db { listings = restock env items db.listings })
    update_order order_id (cancelled_row env))
  emit (status_event OrderEventName.status_cancelled previous updated)
  pure updated

-- The statuses that no cancellation touches.
unfoldable pub is_final : OrderStatus → Bool
is_final s =
    eq_order_status s OrderStatus.cancelled
    || eq_order_status s OrderStatus.refunded
    || eq_order_status s OrderStatus.delivered

-- The checks of `cancel`, for an actor who is the order's buyer or its seller or neither.
unfoldable pub check_cancel : Bool → Bool → Order → Action ⊤
unfolding is_final
check_cancel is_buyer is_seller order = do
  throw_if (not is_buyer && not is_seller) Error.forbidden
  throw_if (is_final order.status) (Error.domain ErrorCode.invalid_order_transition 409)
  throw_if (is_buyer && not is_seller && not (eq_order_status order.status OrderStatus.preparing))
      (Error.domain ErrorCode.forbidden 403)

-- The order as `cancel` reads it, once its checks have passed.
unfoldable pub authorize_cancel : ℕ → ℕ → Action Order
authorize_cancel actor i = do
  user ← get_by_supabase_id_or_fail actor
  order ← or_throw Error.not_found (← gets (find_order i))
  seller_sub ← gets (lookup_seller_supabase_id order.seller_id)
  check_cancel (order.buyer_id == user.id) (is_some_of actor seller_sub) order
  pure order

unfoldable pub cancel : Env → ℕ → ℕ → Action OrderResponse
cancel env actor i = do
  order ← authorize_cancel actor i
  updated ← cancel_internal env order.id order.status
  gets (compose updated)

unfoldable cancel_found : Env → Option Order → Action ⊤
cancel_found env none = pure tt
cancel_found env (some order) =
    if is_final order.status
    then pure tt
    else (do cancel_internal env order.id order.status; pure tt)

unfoldable pub cancel_by_system : Env → ℕ → Action ⊤
unfolding cancel_found
cancel_by_system env order_id = do cancel_found env (← gets (find_order order_id))

-- `onPaymentFailed`: an exception is caught and logged.
unfoldable pub on_payment_failed : Env → PaymentEvent → Action ⊤
on_payment_failed env payload db =
    let (r, db') = cancel_by_system env payload.order_id db in pure tt db'
