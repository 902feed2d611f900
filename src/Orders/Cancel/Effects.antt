-- ===== src/Orders/Cancel/Effects.antt =====
-- The cancellations of src/modules/orders/orders.service.ts, on every branch.
use bomboli_server.Prelude.{
  ℕ, ◌==◌, ==-refl, ◌≡◌, ◌⊎◌, inl, inr, refl, sym, subst, find-id, ==→eq, ◌∙◌, Bool, true, false,
  some, ◌∷◌, find, update, by_id, is_some_of, find-update_self, arith, Option-cases, Bool-cases,
}
use bomboli_server.Db.{
  Db, Env, User, Order, OrderStatus, OrderEventName, Error, ok, err, order_key, Run-cases, ◌>>◌,
  pure,
}
use bomboli_server.Users.{
  find_by_supabase_id, get_by_supabase_id_or_fail, lookup_seller_supabase_id,
}
use bomboli_server.Orders.Access.{find_order, items_of, compose}
use bomboli_server.Orders.Access.Roles.{IsSellerOf, sells-IsSellerOf, IsSellerOf-sells}
use bomboli_server.Orders.Transition.{update_order, status_event}
use bomboli_server.Orders.Cancel.{
  restock, cancelled_row, cancel_internal, is_final, check_cancel, authorize_cancel, cancel,
  cancel_by_system,
}

-- The state after the cancellation of an order.
abbrev pub cancelled_db : Env → Order → OrderStatus → Db → Db
cancelled_db env order previous db = record db {
  listings = restock env (items_of order.id db) db.listings;
  orders = update (by_id order.id) (cancelled_row env) db.orders;
  events =
      status_event OrderEventName.status_cancelled previous (cancelled_row env order) ∷ db.events;
}

-- `cancelInternal` on an order that is stored, whatever its status: it never throws.
pub cancel_internal-stored :
    (env : Env) (order : Order) (previous : OrderStatus) (db : Db)
    → find_order order.id db ≡ some order
    → cancel_internal env order.id previous db
      ≡ (ok (cancelled_row env order), cancelled_db env order previous db)
unfolding cancel_internal update_order find_order items_of
cancel_internal-stored env order previous db h =
    ground (arith, h, find-update_self order.id (cancelled_row env) (λ r. refl) db.orders)

-- Who may cancel an order: its seller, or its buyer while it is in preparation.
abbrev pub MayCancel : ℕ → Db → Order → Type 0
MayCancel actor db order =
    IsSellerOf actor db order
    ⊎ ((order.status ≡ OrderStatus.preparing)
        × ((user : User) × (find_by_supabase_id actor db ≡ some user) × (order.buyer_id ≡ user.id)))

-- A final status is one of three.
pub is_final-false :
    (s : OrderStatus)
    → is_final s ≡ false
    → (s ≡ OrderStatus.preparing) ⊎ (s ≡ OrderStatus.on_the_way)
unfolding is_final
is_final-false s h = ground arith

check_cancel-pure : (b s : Bool) (order : Order) (db : Db) → (check_cancel b s order db).1 ≡ db
unfolding check_cancel
check_cancel-pure b s order db = ground arith

check_cancel-ok :
    (b s : Bool) (order : Order) (db : Db)
    → (check_cancel b s order db).0 ≡ ok tt
    → (is_final order.status ≡ false)
      × ((s ≡ true) ⊎ ((order.status ≡ OrderStatus.preparing) × (b ≡ true)))
unfolding check_cancel
check_cancel-ok b true order db h = (ground arith, inl refl)
check_cancel-ok b false order db h = (ground arith, inr (ground arith, ground arith))

pub authorize_cancel-pure : (actor i : ℕ) (db : Db) → (authorize_cancel actor i db).1 ≡ db
unfolding authorize_cancel get_by_supabase_id_or_fail
authorize_cancel-pure actor i db = grind (arith, check_cancel-pure)

authorize_cancel-eq :
    (actor i : ℕ) (db : Db) (user : User) (order : Order)
    → find_by_supabase_id actor db ≡ some user
    → find_order i db ≡ some order
    → authorize_cancel actor i db
      ≡ (check_cancel
              (order.buyer_id == user.id)
              (is_some_of actor (lookup_seller_supabase_id order.seller_id db))
              order
            >> pure order)
          db
unfolding authorize_cancel get_by_supabase_id_or_fail
authorize_cancel-eq actor i db user order u o = ground (arith, u, o)

may_cancel :
    (actor i : ℕ) (db : Db) (user : User) (order : Order) (seller : Bool)
    → find_by_supabase_id actor db ≡ some user
    → is_some_of actor (lookup_seller_supabase_id order.seller_id db) ≡ seller
    → (seller ≡ true)
      ⊎ ((order.status ≡ OrderStatus.preparing) × ((order.buyer_id == user.id) ≡ true))
    → MayCancel actor db order
may_cancel actor i db user order seller u s (inl e) = inl (sells-IsSellerOf actor db order (s ∙ e))
may_cancel actor i db user order seller u s (inr (p, b)) = inr (p, (user, u, ==→eq _ _ b))

authorize_cancel-found :
    (actor i : ℕ) (db db₁ : Db) (user : User) (x order : Order)
    → find_by_supabase_id actor db ≡ some user
    → find_order i db ≡ some x
    → authorize_cancel actor i db ≡ (ok order, db₁)
    → (find_order i db ≡ some order) × (is_final order.status ≡ false) × MayCancel actor db order
authorize_cancel-found actor i db db₁ user x order u o h =
    let seller = is_some_of actor (lookup_seller_supabase_id x.seller_id db) in
    let eq = sym (authorize_cancel-eq actor i db user x u o) ∙ h in
    let same : x ≡ order = ground (arith, eq) in
    let (going, role) = check_cancel-ok (x.buyer_id == user.id) seller x db (ground (arith, eq)) in
    subst
      (λ (y : Order).
        (find_order i db ≡ some y) × (is_final y.status ≡ false) × MayCancel actor db y)
      same (o, going, may_cancel actor i db user x seller u refl role)

pub authorize_cancel-ok :
    (actor i : ℕ) (db db₁ : Db) (order : Order)
    → authorize_cancel actor i db ≡ (ok order, db₁)
    → (find_order i db ≡ some order) × (is_final order.status ≡ false) × MayCancel actor db order
unfolding authorize_cancel get_by_supabase_id_or_fail
authorize_cancel-ok actor i db db₁ order h = elim (Option-cases (find_by_supabase_id actor db)) [
  | inl u ↦ absurd (ground (arith, u))
  | inr (user, u) ↦ elim (Option-cases (find_order i db)) [
    | inl o ↦ absurd (ground (arith, u, o))
    | inr (x, o) ↦ authorize_cancel-found actor i db db₁ user x order u o h
  ]
]

authorize_cancel-known :
    (actor i : ℕ) (db db₁ : Db) (order : Order)
    → authorize_cancel actor i db ≡ (ok order, db₁)
    → (user : User) × (find_by_supabase_id actor db ≡ some user)
unfolding authorize_cancel get_by_supabase_id_or_fail
authorize_cancel-known actor i db db₁ order h = elim (Option-cases (find_by_supabase_id actor db)) [
  | inl u ↦ absurd (ground (arith, u))
  | inr (user, u) ↦ (user, u)
]

pub cancel_internal-found :
    (env : Env) (i : ℕ) (order : Order) (db : Db)
    → find_order i db ≡ some order
    → cancel_internal env order.id order.status db
      ≡ (ok (cancelled_row env order), cancelled_db env order order.status db)
unfolding find_order
cancel_internal-found env i order db h =
    cancel_internal-stored env order order.status db (
      subst (λ (x : ℕ). find (by_id x) db.orders ≡ some order) (sym (find-id i db.orders order h))
        h)

-- The actor is known and may cancel the order of the id, which is in preparation or on its way.
abbrev pub Cancellable : ℕ → ℕ → Db → Order → Type 0
Cancellable actor i db order =
    (find_order i db ≡ some order)
    × ((user : User) × (find_by_supabase_id actor db ≡ some user))
    × ((order.status ≡ OrderStatus.preparing) ⊎ (order.status ≡ OrderStatus.on_the_way))
    × MayCancel actor db order

-- The checks of `cancel` pass for whoever may cancel.
check_cancel-passes :
    (b s : Bool) (order : Order) (db : Db)
    → (order.status ≡ OrderStatus.preparing) ⊎ (order.status ≡ OrderStatus.on_the_way)
    → (s ≡ true) ⊎ ((order.status ≡ OrderStatus.preparing) × (b ≡ true))
    → check_cancel b s order db ≡ (ok tt, db)
unfolding check_cancel
check_cancel-passes b s order db going role = ground (arith, going, role)

role_of :
    (actor : ℕ) (db : Db) (user : User) (order : Order)
    → find_by_supabase_id actor db ≡ some user
    → MayCancel actor db order
    → (is_some_of actor (lookup_seller_supabase_id order.seller_id db) ≡ true)
      ⊎ ((order.status ≡ OrderStatus.preparing) × ((order.buyer_id == user.id) ≡ true))
role_of actor db user order u (inl e) = inl (IsSellerOf-sells actor db order e)
role_of actor db user order u (inr (p, (x, known, b))) =
    let same : x ≡ user = ground (arith, u, known) in inr (p, rw (b, same) (==-refl user.id))

authorize_cancel-passes :
    (actor i : ℕ) (db : Db) (order : Order)
    → Cancellable actor i db order
    → authorize_cancel actor i db ≡ (ok order, db)
authorize_cancel-passes actor i db order (o, (user, u), going, may) =
    let seller = is_some_of actor (lookup_seller_supabase_id order.seller_id db) in
    let passed =
      check_cancel-passes (order.buyer_id == user.id) seller order db going
        (role_of actor db user order u may) in
    authorize_cancel-eq actor i db user order u o ∙ ground (arith, passed)

-- A cancellation takes place exactly when the actor is known and is the order's seller, or its buyer
-- while the order is in preparation, and the order is in preparation or on its way: then the order
-- is cancelled, the items are given back to their listings, and the event is emitted. Otherwise it
-- throws and changes nothing.
pub cancel-cases :
    (env : Env) (actor i : ℕ) (db : Db)
    → ((order : Order) × Cancellable actor i db order
        × (let db' = cancelled_db env order order.status db in
            cancel env actor i db ≡ (ok (compose (cancelled_row env order) db'), db')))
      ⊎ ((e : Error) × (cancel env actor i db ≡ (err e, db))
          × ((order : Order) → ¬ Cancellable actor i db order))
unfolding cancel
cancel-cases env actor i db = elim (Run-cases (authorize_cancel actor i db)) [
  | inr (e, db₁, k) ↦ inr (
    e,
    ground (arith, k, authorize_cancel-pure actor i db),
    λ order may. ground (arith, k, authorize_cancel-passes actor i db order may),
  )
  | inl (order, db₁, k) ↦
      let (o, going, may) = authorize_cancel-ok actor i db db₁ order k in
      inl (
        order,
        (o, authorize_cancel-known actor i db db₁ order k, is_final-false order.status going, may),
        ground (arith, k, authorize_cancel-pure actor i db, cancel_internal-found env i order db o),
      )
]

-- The cancellation by the system never throws. An order that is missing or final stays as it is,
-- and any other is cancelled and restocked.
pub cancel_by_system-cases :
    (env : Env) (i : ℕ) (db : Db)
    → ((order : Order) × (find_order i db ≡ some order)
        × (is_final order.status ≡ false)
        × (cancel_by_system env i db ≡ (ok tt, cancelled_db env order order.status db)))
      ⊎ (((order : Order) → find_order i db ≡ some order → is_final order.status ≡ true)
          × (cancel_by_system env i db ≡ (ok tt, db)))
unfolding cancel_by_system
cancel_by_system-cases env i db = elim (Option-cases (find_order i db)) [
  | inl o ↦ inr (λ order h. ground (arith, o, h), ground (arith, o))
  | inr (order, o) ↦ elim (Bool-cases (is_final order.status)) [
    | inl final ↦ inr (λ x h. ground (arith, o, h, final), ground (arith, o, final))
    | inr going ↦
        inl (order, o, going, ground (arith, o, going, cancel_internal-found env i order db o))
  ]
]
