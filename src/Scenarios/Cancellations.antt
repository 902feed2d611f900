-- ===== src/Scenarios/Cancellations.antt =====
-- The sample order is cancelled and moved on: `cancel` and `transition` of
-- src/modules/orders/orders.service.ts.
use bomboli_server.Prelude.{◌⊎◌, none, ◌+◌, ◌*◌, ◌≡◌, refl, true, some, find}
use bomboli_server.Db.{
  Db, ok, err, Error, OrderStatus, OrderEventName, Order, seller_key, order_key, user_key,
  listing_key,
}
use bomboli_server.Users.{get_by_supabase_id_or_fail, lookup_seller_supabase_id}
use bomboli_server.Orders.Access.{find_order, items_of, compose}
use bomboli_server.Orders.Checkout.Stock.{stock}
use bomboli_server.Orders.Cancel.{authorize_cancel, check_cancel, cancel, cancelled_row}
use bomboli_server.Orders.Cancel.Effects.{Cancellable, cancelled_db, cancel-cases}
use bomboli_server.Orders.Transition.{transition}
use bomboli_server.Orders.Transition.Effects.{
  Movable, Names, moved_order, moved_db, transition-cases,
}
use bomboli_server.Orders.Cancel.Restock.{held, is_listed}
use bomboli_server.Orders.Cancel.Race.{overlapping_cancels, overlapping_cancels-restock_twice}
use bomboli_server.Orders.History.{Step, Reach, Keeps, Later, Reach-Grows}
use bomboli_server.Scenarios.Data.{later, env, db, open_order}

buyer_may : (authorize_cancel 11 30 db).0 ≡ ok open_order
unfolding authorize_cancel check_cancel find_order find get_by_supabase_id_or_fail
    lookup_seller_supabase_id
buyer_may = refl

seller_may : (authorize_cancel 12 30 db).0 ≡ ok open_order
unfolding authorize_cancel check_cancel find_order find get_by_supabase_id_or_fail
    lookup_seller_supabase_id
seller_may = refl

rice_is_listed : is_listed 7 db.listings ≡ true
unfolding is_listed find
rice_is_listed = refl

overlapping_cancels-restock_twice_example :
    let (r, after) = overlapping_cancels env 11 12 30 db in
    (r ≡ ok tt) × (stock 7 after.listings ≡ stock 7 db.listings + 2 * held 7 (items_of 30 db))
overlapping_cancels-restock_twice_example =
    overlapping_cancels-restock_twice env 11 12 30 db open_order open_order buyer_may seller_may 7
      rice_is_listed

cancel-cases_example :
    ((order : Order) × Cancellable 11 30 db order
      × (let db' = cancelled_db env order order.status db in
          cancel env 11 30 db ≡ (ok (compose (cancelled_row env order) db'), db')))
    ⊎ ((e : Error) × (cancel env 11 30 db ≡ (err e, db))
        × ((order : Order) → ¬ Cancellable 11 30 db order))
cancel-cases_example = cancel-cases env 11 30 db

transition-cases_example :
    ((order : Order) × (name : OrderEventName) × Movable 12 30 OrderStatus.on_the_way db order
      × Names OrderStatus.on_the_way name
      × (let db' = moved_db env OrderStatus.on_the_way none name order db in
          transition env 12 30 OrderStatus.on_the_way none db
          ≡ (ok (compose (moved_order env OrderStatus.on_the_way none order) db'), db')))
    ⊎ ((e : Error) × (transition env 12 30 OrderStatus.on_the_way none db ≡ (err e, db))
        × ((order : Order) → ¬ Movable 12 30 OrderStatus.on_the_way db order))
transition-cases_example = transition-cases env 12 30 OrderStatus.on_the_way none db

-- The seller sends the order off, and cancels it after all.
abbrev after_both : Db
after_both = (cancel later 12 30 (transition env 12 30 OrderStatus.on_the_way none db).1).1

abbrev sent_and_cancelled : Reach db after_both
sent_and_cancelled =
    Reach.next (Reach.next Reach.here (Step.moves env 12 30 OrderStatus.on_the_way none refl))
      (Step.cancels later 12 30 refl)

its_order : find_order 30 db ≡ some open_order
unfolding find_order find
its_order = refl

Reach-Grows_example :
    (o' : Order) × (find_order 30 after_both ≡ some o')
    × Keeps open_order o'
    × Later open_order.status o'.status
Reach-Grows_example = Reach-Grows db after_both sent_and_cancelled 30 open_order its_order
