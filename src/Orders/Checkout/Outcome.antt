-- ===== src/Orders/Checkout/Outcome.antt =====
-- What `createFromCart` (src/modules/orders/orders.service.ts) leaves behind, on success and on
-- failure.
use bomboli_server.Prelude.{
  ℕ, ◌+◌, ◌≡◌, ◌==◌, ◌∙◌, refl, sym, subst, ap, ap₂, append-nil, ==-refl, or_default, Option, some,
  [], ◌++◌, sum_by, find, select, arith, inl, inr, select-append, if◌then◌else◌, map,
}
use bomboli_server.Db.{
  Db, Env, Order, OrderStatus, AddressSnapshot, Error, ok, err, is_delivery, cart_key,
}
use bomboli_server.Orders.Access.{OrderResponse, compose, compose_item, items_of, find_order}
use bomboli_server.Orders.Checkout.{
  CreateOrderInput, cart_items_of, lock_listings, order_row, order_items_from, create_from_cart,
}
use bomboli_server.Orders.Checkout.Stock.{line_total}
use bomboli_server.Orders.Checkout.Placed.{
  Checked, Placed, create_from_cart-cases, reserve_all-frame,
}
use bomboli_server.Orders.Checkout.Lines.{
  reserve_all-subtotal, items-order_items_from, line_totals-order_items_from,
}

-- A checkout that throws, for whatever reason, leaves the whole state as it was.
pub create_from_cart-atomic :
    (env : Env) (actor : ℕ) (dto : CreateOrderInput) (db : Db) (e : Error)
    → (create_from_cart env actor dto db).0 ≡ err e
    → (create_from_cart env actor dto db).1 ≡ db
create_from_cart-atomic env actor dto db e h = elim (create_from_cart-cases env actor dto db) [
  | inl (order, db', p, c) ↦ ground (arith, c)
  | inr (x, c) ↦ ap (λ s. s.1) c
]

-- The reserved state differs from the first one in the listings alone.
pub reserved-frame :
    {env : Env} {dto : CreateOrderInput} {address : Option AddressSnapshot} {user_id : ℕ}
    (db db' : Db) {order : Order} (k : Checked env dto address user_id db db' order)
    → k.reserved ≡ record db { listings = k.reserved.listings }
reserved-frame {env = env} db db' k =
    let items = cart_items_of k.cart.id db.cart_items in
    let frame =
      reserve_all-frame env k.seller k.currency (lock_listings items db.listings) items db in
    ground (arith, frame, k.reserve)

module _ (env : Env) (actor : ℕ) (dto : CreateOrderInput) (db db' : Db) (order : Order)
    (p : Placed env actor dto db db' order) where
  pub stored : find_order order.id db' ≡ some order
  unfolding find_order find
  stored = ground (arith, p.emitted, p.checked.written, ==-refl order.id)

  pub fresh_id : order.id ≡ env.fresh 0
  unfolding order_row
  fresh_id = ground (arith, p.checked.is_order)

  pub written_items :
      items_of (env.fresh 0) db ≡ []
      → items_of order.id db' ≡ order_items_from env order.id 1 p.checked.out.0
  unfolding items_of
  written_items new_id =
      let k = p.checked in
      let lines = order_items_from env order.id 1 k.out.0 in
      let old : select (λ i. i.order_id == order.id) k.reserved.order_items ≡ [] =
        subst (λ (x : ℕ). select (λ i. i.order_id == x) k.reserved.order_items ≡ []) (sym fresh_id)
          (ap (λ (d : Db). items_of (env.fresh 0) d) (reserved-frame db p.committed k) ∙ new_id) in
      rw (p.emitted, k.written)
        (select-append (λ i. i.order_id == order.id) lines k.reserved.order_items
          ∙ ap₂ ◌++◌ (items-order_items_from env order.id 1 k.out.0) old
          ∙ append-nil lines)

  amounts :
      (order.status ≡ OrderStatus.preparing)
      × (order.subtotal_cents ≡ sum_by line_total p.checked.out.0)
      × (order.total_cents ≡ order.subtotal_cents + order.delivery_fee_cents)
      × (order.delivery_fee_cents
          ≡ (if is_delivery dto.fulfillment_type then or_default 0 dto.delivery_fee_cents else 0))
  unfolding order_row
  amounts =
      let k = p.checked in
      let items = cart_items_of k.cart.id db.cart_items in
      let total =
        reserve_all-subtotal env k.seller k.currency (lock_listings items db.listings) items db
          k.reserved k.out k.reserve in
      ground (arith, k.is_order, total)

items-composed :
    (order : Order) (db : Db) (resp : OrderResponse)
    → resp ≡ compose order db
    → resp.items ≡ map compose_item (items_of order.id db)
unfolding compose
items-composed order db resp h = ap (λ r. r.items) h

module _ (env : Env) (actor : ℕ) (dto : CreateOrderInput) (db : Db) (resp : OrderResponse)
    (done : (create_from_cart env actor dto db).0 ≡ ok resp) where
  -- The successful call, taken apart.
  pub placed :
      (db' : Db) × Placed env actor dto db db' resp.order
      × (create_from_cart env actor dto db ≡ (ok resp, db'))
      × (resp ≡ compose resp.order db')
  unfolding compose
  placed = elim (create_from_cart-cases env actor dto db) [
    | inr (x, c) ↦ ground (arith, c)
    | inl (order, db', p, c) ↦
        let same : compose order db' ≡ resp = ground (arith, c) in
        (
          db',
          subst (λ (r : OrderResponse). Placed env actor dto db db' r.order) same p,
          c ∙ ap (λ r. (ok r, db')) same,
          subst (λ (r : OrderResponse). r ≡ compose r.order db') same refl,
        )
  ]

  -- The order that a checkout returns is stored, is in preparation, and its amounts add up: the
  -- subtotal is the sum of its lines' totals, the total is the subtotal and the delivery fee, and
  -- the fee is the one asked for, or 0 for a pickup; given that the new order's id names no row of
  -- `order_items` yet.
  pub create_from_cart-totals :
      items_of (env.fresh 0) db ≡ []
      → (find_order resp.order.id (create_from_cart env actor dto db).1 ≡ some resp.order)
        × (resp.order.status ≡ OrderStatus.preparing)
        × (resp.order.subtotal_cents ≡ sum_by (λ r. r.line_total_cents) resp.items)
        × (resp.order.total_cents ≡ resp.order.subtotal_cents + resp.order.delivery_fee_cents)
        × (resp.order.delivery_fee_cents
            ≡ (if is_delivery dto.fulfillment_type then or_default 0 dto.delivery_fee_cents else 0))
  create_from_cart-totals new_id =
      let (db', p, c, r) = placed in
      let lines = p.checked.out.0 in
      let (preparing, subtotal, total, fee) = amounts env actor dto db db' resp.order p in
      let its_items =
        items-composed resp.order db' resp r
        ∙ ap (map compose_item) (written_items env actor dto db db' resp.order p new_id) in
      let sums = line_totals-order_items_from env resp.order.id 1 lines in
      (
        rw c (stored env actor dto db db' resp.order p),
        preparing,
        subtotal ∙ sym sums ∙ ap (sum_by (λ r. r.line_total_cents)) (sym its_items),
        total,
        fee,
      )
