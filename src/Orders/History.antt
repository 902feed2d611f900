-- ===== src/Orders/History.antt =====
-- The orders over any number of requests, in any order: all the operations of
-- src/modules/orders/orders.service.ts, the assignment of deliverers in
-- src/modules/deliverers/deliverers.service.ts, and the link that
-- src/modules/payments/payments.service.ts writes.
use bomboli_server.Prelude.{
  ◌+◌, ◌*◌, ℕ, ◌≡◌, ◌≢◌, ◌∙◌, ◌⊎◌, inl, inr, refl, sym, ap, subst, Option, none, some, ◌∷◌, find,
  update, by_id, find-id, Change, same, moved, opened, Change-found, arith,
}
use bomboli_server.Db.{Db, Env, Point, Order, OrderStatus, order_key}
use bomboli_server.Orders.Access.{find_order}
use bomboli_server.Orders.Checkout.{CreateOrderInput, create_from_cart}
use bomboli_server.Orders.Checkout.Placed.{create_from_cart-cases}
use bomboli_server.Orders.Checkout.Outcome.{reserved-frame, fresh_id}
use bomboli_server.Orders.Transition.{transition}
use bomboli_server.Orders.Transition.Effects.{IsForward, moved_order, transition-cases}
use bomboli_server.Orders.Cancel.{cancel, cancel_by_system, cancelled_row}
use bomboli_server.Orders.Cancel.Effects.{cancel-cases, cancel_by_system-cases, is_final-false}
use bomboli_server.Deliverers.{assign_to_order, assign_row}
use bomboli_server.Deliverers.Assignments.{assign_to_order-cases}
use bomboli_server.Payments.Marks.{link_payment}

-- One request, or anything that leaves the orders alone. A new order gets an id that is not in use.
pub data Step (db db' : Db) : Type 0 where
  places :
      (env : Env) (actor : ℕ) (dto : CreateOrderInput)
      → find_order (env.fresh 0) db ≡ none
      → db' ≡ (create_from_cart env actor dto db).1
      → Step db db'
  moves :
      (env : Env) (actor i : ℕ) (to : OrderStatus) (eta : Option ℕ)
      → db' ≡ (transition env actor i to eta db).1
      → Step db db'
  cancels : (env : Env) (actor i : ℕ) → db' ≡ (cancel env actor i db).1 → Step db db'
  gives_up : (env : Env) (i : ℕ) → db' ≡ (cancel_by_system env i db).1 → Step db db'
  assigns :
      (travel_minutes : Point → Point → ℕ) (env : Env) (i deliverer_id : ℕ)
      → db' ≡ (assign_to_order travel_minutes env i deliverer_id db).1
      → Step db db'
  links :
      (env : Env) (i payment_id : ℕ) (order : Order)
      → find_order i db ≡ some order
      → db'.orders ≡ update (by_id i) (link_payment env payment_id) db.orders
      → Step db db'
  elsewhere : db'.orders ≡ db.orders → Step db db'

pub data Reach (db : Db) : Db → Type 0 where
  here : Reach db db
  next : {mid db' : Db} → Reach db mid → Step mid db' → Reach db db'

-- What no request changes of an order: whose it is and what it costs.
pub record Keeps (o o' : Order) : Type 0 where
  pub same_id : o'.id ≡ o.id
  pub same_buyer : o'.buyer_id ≡ o.buyer_id
  pub same_seller : o'.seller_id ≡ o.seller_id
  pub same_address : o'.address_snapshot ≡ o.address_snapshot
  pub same_total : o'.total_cents ≡ o.total_cents
  pub same_currency : o'.currency ≡ o.currency

-- Where an order may get to: from preparation anywhere but to a refund, from its way to its
-- delivery or a cancellation, and from there nowhere.
abbrev pub Later : OrderStatus → OrderStatus → Type 0
Later from to =
    (to ≡ from)
    ⊎ ((to ≢ OrderStatus.refunded) × (from ≡ OrderStatus.preparing))
    ⊎ ((from ≡ OrderStatus.on_the_way)
        × ((to ≡ OrderStatus.delivered) ⊎ (to ≡ OrderStatus.cancelled)))

record Grows (o o' : Order) : Type 0 where
  pub keeps : Keeps o o'
  pub later : Later o.status o'.status

same_all : (o : Order) → Keeps o o
same_all o = record {
  same_id = refl;
  same_buyer = refl;
  same_seller = refl;
  same_address = refl;
  same_total = refl;
  same_currency = refl;
}

stays : (o : Order) → Grows o o
stays o = record { keeps = same_all o; later = inl refl }

Later-trans : (a b c : OrderStatus) → Later a b → Later b c → Later a c
Later-trans a b c l m = ground (arith, l, m)

Grows-trans : (o p q : Order) → Grows o p → Grows p q → Grows o q
Grows-trans o p q g h = record {
  keeps = record {
    same_id = h.keeps.same_id ∙ g.keeps.same_id;
    same_buyer = h.keeps.same_buyer ∙ g.keeps.same_buyer;
    same_seller = h.keeps.same_seller ∙ g.keeps.same_seller;
    same_address = h.keeps.same_address ∙ g.keeps.same_address;
    same_total = h.keeps.same_total ∙ g.keeps.same_total;
    same_currency = h.keeps.same_currency ∙ g.keeps.same_currency;
  };
  later = Later-trans o.status p.status q.status g.later h.later;
}

moved_order-Grows :
    (env : Env) (to : OrderStatus) (eta : Option ℕ) (o : Order)
    → IsForward o.status to
    → Grows o (moved_order env to eta o)
moved_order-Grows env to eta o forward = record {
  keeps = record {
    same_id = refl;
    same_buyer = refl;
    same_seller = refl;
    same_address = refl;
    same_total = refl;
    same_currency = refl;
  };
  later = ground (arith, forward);
}

cancelled_row-Grows :
    (env : Env) (o : Order)
    → (o.status ≡ OrderStatus.preparing) ⊎ (o.status ≡ OrderStatus.on_the_way)
    → Grows o (cancelled_row env o)
cancelled_row-Grows env o going = record {
  keeps = record {
    same_id = refl;
    same_buyer = refl;
    same_seller = refl;
    same_address = refl;
    same_total = refl;
    same_currency = refl;
  };
  later = ground (arith, going);
}

assign_row-Grows :
    (env : Env) (deliverer_id eta : ℕ) (o : Order) → Grows o (assign_row env deliverer_id eta o)
assign_row-Grows env deliverer_id eta o = record {
  keeps = record {
    same_id = refl;
    same_buyer = refl;
    same_seller = refl;
    same_address = refl;
    same_total = refl;
    same_currency = refl;
  };
  later = inl refl;
}

link_payment-Grows :
    (env : Env) (payment_id : ℕ) (o : Order) → Grows o (link_payment env payment_id o)
link_payment-Grows env payment_id o = record {
  keeps = record {
    same_id = refl;
    same_buyer = refl;
    same_seller = refl;
    same_address = refl;
    same_total = refl;
    same_currency = refl;
  };
  later = inl refl;
}

own_id :
    (i : ℕ) (o : Order) (db : Db) → find_order i db ≡ some o → find (by_id o.id) db.orders ≡ some o
unfolding find_order
own_id i o db h =
    subst (λ (x : ℕ). find (by_id x) db.orders ≡ some o) (sym (find-id i db.orders o h)) h

abbrev OrdersChange : Db → Db → Type 0
OrdersChange db db' = Change Grows db.orders db'.orders

placed-Change :
    (env : Env) (actor : ℕ) (dto : CreateOrderInput) (db : Db)
    → find_order (env.fresh 0) db ≡ none
    → OrdersChange db (create_from_cart env actor dto db).1
unfolding find_order
placed-Change env actor dto db new = elim (create_from_cart-cases env actor dto db) [
  | inr (e, c) ↦ same (ap (λ s. s.1.orders) c)
  | inl (order, db', p, c) ↦
      let id_is = fresh_id env actor dto db db' order p in
      let before : p.checked.reserved.orders ≡ db.orders =
        ap (λ (d : Db). d.orders) (reserved-frame db p.committed p.checked) in
      opened order (rw id_is new) (
        ap (λ s. s.1.orders) c
        ∙ ap (λ (d : Db). d.orders) p.emitted
        ∙ ap (λ (d : Db). d.orders) p.checked.written
        ∙ ap (λ rows. order ∷ rows) before)
]

Step-Change : (db db' : Db) → Step db db' → OrdersChange db db'
unfolding find_order
Step-Change db db' (places env actor dto new e) =
    subst (OrdersChange db) (sym e) (placed-Change env actor dto db new)
Step-Change db db' (moves env actor i to eta e) =
    subst (OrdersChange db) (sym e) (elim (transition-cases env actor i to eta db) [
      | inr (x, c, _) ↦ same (ap (λ s. s.1.orders) c)
      | inl (order, name, (found, _, forward), _, c) ↦
          moved order.id order (moved_order env to eta) (own_id i order db found) (λ q. refl)
            (moved_order-Grows env to eta order forward) (ap (λ s. s.1.orders) c)
    ])
Step-Change db db' (cancels env actor i e) =
    subst (OrdersChange db) (sym e) (elim (cancel-cases env actor i db) [
      | inr (x, c, _) ↦ same (ap (λ s. s.1.orders) c)
      | inl (order, (found, _, going, _), c) ↦
          moved order.id order (cancelled_row env) (own_id i order db found) (λ q. refl)
            (cancelled_row-Grows env order going) (ap (λ s. s.1.orders) c)
    ])
Step-Change db db' (gives_up env i e) =
    subst (OrdersChange db) (sym e) (elim (cancel_by_system-cases env i db) [
      | inr (final, c) ↦ same (ap (λ s. s.1.orders) c)
      | inl (order, found, going, c) ↦
          moved order.id order (cancelled_row env) (own_id i order db found) (λ q. refl)
            (cancelled_row-Grows env order (is_final-false order.status going))
            (ap (λ s. s.1.orders) c)
    ])
Step-Change db db' (assigns travel_minutes env i deliverer_id e) =
    subst (OrdersChange db) (sym e)
      (elim (assign_to_order-cases travel_minutes env i deliverer_id db) [
        | inr (x, c, _) ↦ same (ap (λ s. s.1.orders) c)
        | inl (order, d, dest, pickup, minutes, can, _, c) ↦
            let eta = env.now + minutes * 60000 in
            moved order.id order (assign_row env d.id eta) (own_id i order db can.found) (λ q. refl)
              (assign_row-Grows env d.id eta order) (ap (λ s. s.1.orders) c)
      ])
Step-Change db db' (links env i payment_id order found e) =
    moved i order (link_payment env payment_id) found (λ q. refl)
      (link_payment-Grows env payment_id order) e
Step-Change db db' (elsewhere e) = same e

-- Over any sequence of requests an order keeps its buyer, its seller, its address and what it costs,
-- and its status only moves on: a delivered, cancelled or refunded order stays so for ever, and no
-- order is ever refunded that was not.
pub Reach-Grows :
    (db db' : Db)
    → Reach db db'
    → (k : ℕ) (o : Order) → find_order k db ≡ some o
    → (o' : Order) × (find_order k db' ≡ some o') × Keeps o o' × Later o.status o'.status
unfolding find_order
Reach-Grows db db' here k o e = (o, e, same_all o, inl refl)
Reach-Grows db db' (next {mid = mid} r s) k o e =
    let (p, f, kept, later) = Reach-Grows db mid r k o e in
    let (q, g, grows) =
      Change-found Grows stays mid.orders db'.orders (Step-Change mid db' s) k p f in
    let whole = Grows-trans o p q (record { keeps = kept; later = later }) grows in
    (q, g, whole.keeps, whole.later)
