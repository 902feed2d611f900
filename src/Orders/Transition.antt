-- ===== src/Orders/Transition.antt =====
-- `transition` of src/modules/orders/orders.service.ts: the forward steps of an order.
pub mod Effects
use bomboli_server.Prelude.{ℕ, not, ◌||◌, Option, none, some, update, by_id}
use bomboli_server.Db.{
  Env, Order, OrderStatus, Event, OrderEventName, order_event, Error, ErrorCode, Action, gets,
  or_throw, throw_if, modify, emit, ◌>>=◌, ◌>>◌, eq_order_status, order_key,
}
use bomboli_server.Orders.Status.{allowed, status_to_event_name}
use bomboli_server.Orders.Access.{
  OrderResponse, find_order, compose, require_seller_or_assigned_deliverer,
}

-- `order.update({ where: { id } })`, which throws on a missing row and returns the new one.
unfoldable pub update_order : ℕ → (Order → Order) → Action Order
update_order i f = do
  or_throw Error.missing_record (← gets (find_order i))
  modify (λ db. record db { orders = update (by_id i) f db.orders })
  or_throw Error.missing_record (← gets (find_order i))

-- The columns that `transition` writes; a date that is left out keeps the old one.
abbrev pub move : Env → OrderStatus → Option ℕ → Order → Order
move env to eta o = record o {
  status = to;
  eta_at = elim eta [ none ↦ o.eta_at | some t ↦ some t ];
  updated_at = env.now;
}

abbrev pub status_event : OrderEventName → OrderStatus → Order → Event
status_event name previous o = order_event name (record {
  order_id = o.id;
  buyer_id = o.buyer_id;
  seller_id = o.seller_id;
  status = o.status;
  previous_status = some previous;
  at = o.updated_at;
})

unfoldable pub transition : Env → ℕ → ℕ → OrderStatus → Option ℕ → Action OrderResponse
transition env actor i to eta = do
  order ← require_seller_or_assigned_deliverer actor i
  throw_if (not (allowed order.status to)) (Error.domain ErrorCode.invalid_order_transition 409)
  throw_if (eq_order_status to OrderStatus.cancelled || eq_order_status to OrderStatus.refunded)
      (Error.domain ErrorCode.invalid_order_transition 400)
  updated ← update_order i (move env to eta)
  emit (status_event (status_to_event_name updated.status) order.status updated)
  gets (compose updated)
