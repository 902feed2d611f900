-- ===== src/Orders/Status.antt =====
-- The order's life: `ALLOWED_TRANSITIONS` of src/modules/orders/orders.service.ts and
-- `statusToEventName` of orders.events.ts.
use bomboli_server.Prelude.{Bool, List, [], ◌∷◌, ◌||◌, false}
use bomboli_server.Db.{OrderStatus, OrderEventName, eq_order_status}

unfoldable open_statuses : OrderStatus → List OrderStatus
open_statuses OrderStatus.preparing = OrderStatus.on_the_way ∷ OrderStatus.cancelled ∷ []
open_statuses OrderStatus.on_the_way = OrderStatus.delivered ∷ OrderStatus.cancelled ∷ []
open_statuses OrderStatus.delivered = OrderStatus.refunded ∷ []
open_statuses OrderStatus.cancelled = []
open_statuses OrderStatus.refunded = []

-- `Array.includes`
unfoldable pub includes : OrderStatus → List OrderStatus → Bool
includes s [] = false
includes s (t ∷ ts) = eq_order_status t s || includes s ts

-- `ALLOWED_TRANSITIONS[from].includes(to)`
unfoldable pub allowed : OrderStatus → OrderStatus → Bool
unfolding open_statuses includes
allowed from to = includes to (open_statuses from)

unfoldable pub status_to_event_name : OrderStatus → OrderEventName
status_to_event_name OrderStatus.preparing = OrderEventName.status_preparing
status_to_event_name OrderStatus.on_the_way = OrderEventName.status_on_the_way
status_to_event_name OrderStatus.delivered = OrderEventName.status_delivered
status_to_event_name OrderStatus.cancelled = OrderEventName.status_cancelled
status_to_event_name OrderStatus.refunded = OrderEventName.status_refunded
