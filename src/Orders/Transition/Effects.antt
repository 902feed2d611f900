-- ===== src/Orders/Transition/Effects.antt =====
-- `transition` of src/modules/orders/orders.service.ts, on every branch.
use bomboli_server.Prelude.{
  ℕ, ◌≡◌, ◌∙◌, ◌⊎◌, inl, inr, refl, sym, subst, ap, true, false, ◌||◌, Option, none, some, ◌∷◌,
  update, by_id, is_some_of, find-update_self, find-id, arith, Option-cases, Bool-cases,
  Option-cases,
}
use bomboli_server.Db.{
  Db, Env, Order, OrderStatus, OrderEventName, Event, order_event, Result, Error, ErrorCode, ok,
  err, order_key, Run-cases, eq_order_status,
}
use bomboli_server.Users.{lookup_seller_supabase_id}
use bomboli_server.Orders.Access.{
  OrderResponse, find_order, compose, require_seller_or_assigned_deliverer,
}
use bomboli_server.Orders.Access.Roles.{
  IsSellerOf, IsDelivererOf, sells-IsSellerOf, IsSellerOf-sells, assigned-IsDelivererOf,
  IsDelivererOf-assigned,
}
use bomboli_server.Orders.Status.{allowed, status_to_event_name}
use bomboli_server.Orders.Transition.{update_order, move, status_event, transition}

-- Who may move an order forward: its seller, or the deliverer assigned to it.
abbrev pub MayMove : ℕ → Db → Order → Type 0
MayMove actor db order = IsSellerOf actor db order ⊎ IsDelivererOf actor db order

-- The two forward steps.
abbrev pub IsForward : OrderStatus → OrderStatus → Type 0
IsForward from to =
    ((from ≡ OrderStatus.preparing) × (to ≡ OrderStatus.on_the_way))
    ⊎ ((from ≡ OrderStatus.on_the_way) × (to ≡ OrderStatus.delivered))

-- An ETA that is given, or else the old one.
abbrev pub new_eta : Option ℕ → Option ℕ → Option ℕ
new_eta none old = old
new_eta (some t) old = some t

-- The row of an order that has moved.
abbrev pub moved_order : Env → OrderStatus → Option ℕ → Order → Order
moved_order env to eta order = record order {
  status = to;
  eta_at = new_eta eta order.eta_at;
  updated_at = env.now;
}

-- The event that the other modules are told of.
abbrev pub told : Env → OrderStatus → OrderEventName → Order → Event
told env to name order = order_event name (record {
  order_id = order.id;
  buyer_id = order.buyer_id;
  seller_id = order.seller_id;
  status = to;
  previous_status = some order.status;
  at = env.now;
})

abbrev pub moved_db : Env → OrderStatus → Option ℕ → OrderEventName → Order → Db → Db
moved_db env to eta name order db = record db {
  orders = update (by_id order.id) (moved_order env to eta) db.orders;
  events = told env to name order ∷ db.events;
}

-- What an order is told by when it sets off, and when it arrives.
abbrev pub Names : OrderStatus → OrderEventName → Type 0
Names to name =
    ((to ≡ OrderStatus.on_the_way) × (name ≡ OrderEventName.status_on_the_way))
    ⊎ ((to ≡ OrderStatus.delivered) × (name ≡ OrderEventName.status_delivered))

require-pure : (actor i : ℕ) (db : Db) → (require_seller_or_assigned_deliverer actor i db).1 ≡ db
unfolding require_seller_or_assigned_deliverer
require-pure actor i db = ground arith

require-ok :
    (actor i : ℕ) (db db₁ : Db) (order : Order)
    → require_seller_or_assigned_deliverer actor i db ≡ (ok order, db₁)
    → (find_order i db ≡ some order) × MayMove actor db order
unfolding require_seller_or_assigned_deliverer
require-ok actor i db db₁ order h = elim (Option-cases (find_order i db)) [
  | inl o ↦ absurd (ground (arith, o))
  | inr (x, o) ↦
      let same : x ≡ order = ground (arith, o) in
      (
        o ∙ ap some same,
        elim (Bool-cases (is_some_of actor (lookup_seller_supabase_id order.seller_id db))) [
          | inl sells ↦ inl (sells-IsSellerOf actor db order sells)
          | inr other ↦ inr (assigned-IsDelivererOf actor db order (ground (arith, o, same, other)))
        ],
      )
]

-- The guards of `transition` let the two forward steps through, and no other.
guards-IsForward :
    (from to : OrderStatus)
    → allowed from to ≡ true
    → (eq_order_status to OrderStatus.cancelled || eq_order_status to OrderStatus.refunded) ≡ false
    → IsForward from to
unfolding allowed
guards-IsForward from to a g = ground (arith, a, g)

-- The steps and the roles that `transition` lets through.
abbrev pub Movable : ℕ → ℕ → OrderStatus → Db → Order → Type 0
Movable actor i to db order =
    (find_order i db ≡ some order) × MayMove actor db order × IsForward order.status to

IsForward-guards :
    (from to : OrderStatus)
    → IsForward from to
    → (allowed from to ≡ true)
      × ((eq_order_status to OrderStatus.cancelled || eq_order_status to OrderStatus.refunded)
          ≡ false)
unfolding allowed
IsForward-guards from to f = ground (arith, f)

require-passes :
    (actor i : ℕ) (db : Db) (order : Order)
    → find_order i db ≡ some order
    → MayMove actor db order
    → require_seller_or_assigned_deliverer actor i db ≡ (ok order, db)
unfolding require_seller_or_assigned_deliverer
require-passes actor i db order o (inl sells) =
    ground (arith, o, IsSellerOf-sells actor db order sells)
require-passes actor i db order o (inr brings) =
    ground (arith, o, IsDelivererOf-assigned actor db order brings)

own_id : (i : ℕ) (db : Db) (order : Order) → find_order i db ≡ some order → order.id ≡ i
unfolding find_order
own_id i db order h = find-id i db.orders order h

update_order-stored :
    (order : Order) (f : Order → Order) (db : Db)
    → ((o : Order) → (f o).id ≡ o.id)
    → find_order order.id db ≡ some order
    → update_order order.id f db
      ≡ (ok (f order), record db { orders = update (by_id order.id) f db.orders })
unfolding update_order find_order
update_order-stored order f db keep h =
    ground (arith, h, find-update_self order.id f keep db.orders)

IsForward-Names : (from to : OrderStatus) → IsForward from to → Names to (status_to_event_name to)
unfolding status_to_event_name
IsForward-Names from to f = ground (arith, f)

moved-eq :
    (env : Env) (to : OrderStatus) (eta : Option ℕ) (order : Order) (db : Db)
    → let row = move env to eta order in
      let db' = record db {
        orders = update (by_id order.id) (move env to eta) db.orders;
        events = status_event (status_to_event_name to) order.status row ∷ db.events;
      } in
      ◌≡◌ {A = Result OrderResponse × Db}
        (ok (compose row db'), db')
        (let after = moved_db env to eta (status_to_event_name to) order db in
          (ok (compose (moved_order env to eta order) after), after))
moved-eq env to none order db = refl
moved-eq env to (some t) order db = refl

forward :
    (env : Env) (actor i : ℕ) (to : OrderStatus) (eta : Option ℕ) (db : Db) (order : Order)
    → require_seller_or_assigned_deliverer actor i db ≡ (ok order, db)
    → find_order i db ≡ some order
    → allowed order.status to ≡ true
    → (eq_order_status to OrderStatus.cancelled || eq_order_status to OrderStatus.refunded) ≡ false
    → let db' = moved_db env to eta (status_to_event_name to) order db in
      transition env actor i to eta db ≡ (ok (compose (moved_order env to eta order) db'), db')
unfolding transition
forward env actor i to eta db order k o a g =
    let same : order.id ≡ i = own_id i db order o in
    let wrote =
      update_order-stored order (move env to eta) db (λ x. refl)
        (subst (λ (x : ℕ). find_order x db ≡ some order) (sym same) o) in
    ground (arith, k, a, g, same, wrote) ∙ moved-eq env to eta order db

refused :
    (env : Env) (actor i : ℕ) (to : OrderStatus) (eta : Option ℕ) (db : Db) (order : Order)
    (e : Error)
    → transition env actor i to eta db ≡ (err e, db)
    → ¬ Movable actor i to db order
refused env actor i to eta db order e h (o, may, step) =
    let (a, g) = IsForward-guards order.status to step in
    let went = forward env actor i to eta db order (require-passes actor i db order o may) o a g in
    ground (arith, h, went)

went_or_not :
    (env : Env) (actor i : ℕ) (to : OrderStatus) (eta : Option ℕ) (db : Db)
    → ((order : Order) × (name : OrderEventName) × Movable actor i to db order
        × Names to name
        × (let db' = moved_db env to eta name order db in
            transition env actor i to eta db
            ≡ (ok (compose (moved_order env to eta order) db'), db')))
      ⊎ ((e : Error) × (transition env actor i to eta db ≡ (err e, db)))
unfolding transition
went_or_not env actor i to eta db =
    elim (Run-cases (require_seller_or_assigned_deliverer actor i db)) [
      | inr (e, db₁, k) ↦ inr (e, ground (arith, k, require-pure actor i db))
      | inl (order, db₁, k) ↦
          let (o, may) = require-ok actor i db db₁ order k in
          let still : require_seller_or_assigned_deliverer actor i db ≡ (ok order, db) =
            ground (arith, k, require-pure actor i db) in
          elim (Bool-cases (allowed order.status to)) [
            | inr a ↦
                inr (Error.domain ErrorCode.invalid_order_transition 409, ground (arith, still, a))
            | inl a ↦
                elim (Bool-cases (
                  eq_order_status to OrderStatus.cancelled
                  || eq_order_status to OrderStatus.refunded)) [
                    | inl g ↦ inr (
                      Error.domain ErrorCode.invalid_order_transition 400,
                      ground (arith, still, a, g),
                    )
                    | inr g ↦
                        let step = guards-IsForward order.status to a g in
                        inl (
                          order,
                          status_to_event_name to,
                          (o, may, step),
                          IsForward-Names order.status to step,
                          forward env actor i to eta db order still o a g,
                        )
                  ]
          ]
    ]

-- A transition takes place exactly when the actor is the user of the order's seller or of the
-- deliverer that it names, and the step is from preparation to on its way, or from there to
-- delivered: then the order takes the new status, the time of the request, and the ETA if one is
-- given; the event of the new status tells both statuses; and the answer is the new row. Otherwise
-- it throws and changes nothing.
pub transition-cases :
    (env : Env) (actor i : ℕ) (to : OrderStatus) (eta : Option ℕ) (db : Db)
    → ((order : Order) × (name : OrderEventName) × Movable actor i to db order
        × Names to name
        × (let db' = moved_db env to eta name order db in
            transition env actor i to eta db
            ≡ (ok (compose (moved_order env to eta order) db'), db')))
      ⊎ ((e : Error) × (transition env actor i to eta db ≡ (err e, db))
          × ((order : Order) → ¬ Movable actor i to db order))
transition-cases env actor i to eta db = elim (went_or_not env actor i to eta db) [
  | inl there ↦ inl there
  | inr (e, h) ↦ inr (e, h, λ order. refused env actor i to eta db order e h)
]
