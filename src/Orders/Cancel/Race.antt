-- ===== src/Orders/Cancel/Race.antt =====
-- Two overlapping cancellations of one order (`cancel` of src/modules/orders/orders.service.ts):
-- each reads the order's status before its transaction, and the transaction does not read it again.
use bomboli_server.Prelude.{
  ⊤, ℕ, ◌+◌, ◌*◌, ◌≡◌, ◌∙◌, refl, sym, subst, ap, find-id, true, find, by_id, find-update_self,
  arith, map_some, some,
}
use bomboli_server.Db.{Db, Env, Order, ok, Action, order_key, ◌>>=◌, ◌>>◌, pure, listing_key}
use bomboli_server.Orders.Access.{find_order, items_of}
use bomboli_server.Orders.Cancel.{authorize_cancel, cancel_internal, cancelled_row, restock}
use bomboli_server.Orders.Cancel.Effects.{
  cancelled_db, cancel_internal-stored, authorize_cancel-ok, authorize_cancel-pure,
  cancel_internal-found,
}
use bomboli_server.Orders.Cancel.Restock.{held, is_listed, stock-restock, is_listed-restock}
use bomboli_server.Orders.Checkout.Stock.{stock}

-- The schedule in which both requests pass their checks before either writes.
unfoldable pub overlapping_cancels : Env → ℕ → ℕ → ℕ → Action ⊤
overlapping_cancels env a b i = do
  first ← authorize_cancel a i
  second ← authorize_cancel b i
  cancel_internal env first.id first.status
  cancel_internal env second.id second.status
  pure tt

own_id :
    (i : ℕ) (db : Db) (order : Order)
    → find_order i db ≡ some order
    → find_order order.id db ≡ some order
unfolding find_order
own_id i db order h =
    subst (λ (x : ℕ). find (by_id x) db.orders ≡ some order) (sym (find-id i db.orders order h)) h

-- The order as it stands after the first cancellation.
reread :
    (env : Env) (order : Order) (db : Db)
    → find_order order.id db ≡ some order
    → find_order order.id (cancelled_db env order order.status db) ≡ some (cancelled_row env order)
unfolding find_order
reread env order db h =
    find-update_self order.id (cancelled_row env) (λ r. refl) db.orders
    ∙ ap (map_some (cancelled_row env)) h

-- When both requests pass their checks before either writes, both succeed, and the items of the
-- order are given back twice to every listing that is not deleted.
pub overlapping_cancels-restock_twice :
    (env : Env) (a b i : ℕ) (db : Db) (order other : Order)
    → (authorize_cancel a i db).0 ≡ ok order
    → (authorize_cancel b i db).0 ≡ ok other
    → (l : ℕ) → is_listed l db.listings ≡ true
    → let (r, after) = overlapping_cancels env a b i db in
      (r ≡ ok tt)
      × (stock l after.listings ≡ stock l db.listings + 2 * held l (items_of order.id db))
unfolding overlapping_cancels items_of
overlapping_cancels-restock_twice env a b i db order other x y l listed =
    let first : authorize_cancel a i db ≡ (ok order, db) =
      ground (arith, x, authorize_cancel-pure a i db) in
    let second : authorize_cancel b i db ≡ (ok other, db) =
      ground (arith, y, authorize_cancel-pure b i db) in
    let (o, _, _) = authorize_cancel-ok a i db db order first in
    let (o', _, _) = authorize_cancel-ok b i db db other second in
    let same : other ≡ order = ground (arith, o, o') in
    let db₁ = cancelled_db env order order.status db in
    let wrote = cancel_internal-found env i order db o in
    let again =
      cancel_internal-stored env (cancelled_row env order) order.status db₁
        (reread env order db (own_id i db order o)) in
    let ends : overlapping_cancels env a b i db
        ≡ (ok tt, cancelled_db env (cancelled_row env order) order.status db₁) =
      ground (arith, first, second, same, wrote, again) in
    let items = items_of order.id db in
    let rows = restock env items db.listings in
    rw ends (
      refl,
      ground (
        arith,
        stock-restock env items l db.listings,
        stock-restock env items l rows,
        is_listed-restock env items l db.listings,
        listed,
      ),
    )
