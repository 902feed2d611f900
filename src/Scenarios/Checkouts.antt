-- ===== src/Scenarios/Checkouts.antt =====
-- A checkout of the sample cart: `createFromCart` of src/modules/orders/orders.service.ts.
use bomboli_server.Prelude.{
  ◌+◌, ◌==◌, ◌≤◌, false, All, ◌≡◌, refl, none, some, [], ◌∷◌, find, select, sum_by, is_empty, arith,
}
use bomboli_server.Db.{
  Db, Order, OrderStatus, cdf, Error, ErrorCode, ok, err, cart_key, listing_key,
}
use bomboli_server.Users.{find_by_supabase_id, get_by_supabase_id_or_fail}
use bomboli_server.Orders.Access.{OrderResponse, find_order, items_of, get_by_id, compose}
use bomboli_server.Orders.Checkout.{create_from_cart, cart_items_of}
use bomboli_server.Orders.Checkout.Stock.{stock, ordered, IsDistinct}
use bomboli_server.Orders.Checkout.Effects.{create_from_cart-stock}
use bomboli_server.Orders.Checkout.Available.{
  IsAvailable, cost, create_from_cart-IsAvailable, create_from_cart-succeeds,
}
use bomboli_server.Orders.RoundTrip.{cancel_by_system-create_from_cart}
use bomboli_server.Orders.Cancel.{cancel_by_system}
use bomboli_server.Orders.Checkout.Outcome.{create_from_cart-atomic, create_from_cart-totals}
use bomboli_server.Scenarios.Data.{
  env, later, buyer, basket, rice, beans, two_rice, two_beans, open_order, db, to_pick_up,
}

abbrev placed_order : Order
placed_order = record open_order {
  id = 100;
  subtotal_cents = 1100;
  total_cents = 1100;
  created_at = 1000;
  updated_at = 1000;
}

abbrev response : OrderResponse
response = record {
  order = placed_order;
  seller =
      some
        (record { id = 5; display_name = some "Merchant"; avatar_url = none; banner_url = none });
  deliverer = none;
  items =
      record {
        item = record {
          id = 101;
          order_id = 100;
          listing_id = 7;
          title_snapshot = "Rice";
          price_cents_snapshot = 300;
          photo_url_snapshot = none;
          quantity = 2;
          options = none;
        };
        line_total_cents = 600;
      }
      ∷ record {
        item = record {
          id = 102;
          order_id = 100;
          listing_id = 8;
          title_snapshot = "Beans";
          price_cents_snapshot = 250;
          photo_url_snapshot = none;
          quantity = 2;
          options = none;
        };
        line_total_cents = 500;
      }
      ∷ [];
}

checks_out : (create_from_cart env 11 to_pick_up db).0 ≡ ok response
unfolding create_from_cart get_by_id compose get_by_supabase_id_or_fail find select
checks_out = refl

abbrev greedy : Db
greedy = record db { cart_items = two_rice ∷ record two_beans { quantity = 9 } ∷ [] }

runs_out :
    (create_from_cart env 11 to_pick_up greedy).0 ≡ err (Error.domain ErrorCode.out_of_stock 409)
unfolding create_from_cart get_by_id compose get_by_supabase_id_or_fail find select
runs_out = refl

create_from_cart-atomic_example : (create_from_cart env 11 to_pick_up greedy).1 ≡ greedy
create_from_cart-atomic_example =
    create_from_cart-atomic env 11 to_pick_up greedy (Error.domain ErrorCode.out_of_stock 409)
      runs_out

new_id : items_of (env.fresh 0) db ≡ []
unfolding items_of select
new_id = refl

its_buyer : find_by_supabase_id 11 db ≡ some buyer
unfolding find_by_supabase_id find
its_buyer = refl

its_basket : find (λ c. c.user_id == buyer.id) db.carts ≡ some basket
unfolding find
its_basket = refl

basket-IsDistinct : IsDistinct (cart_items_of basket.id db.cart_items)
unfolding cart_items_of select
basket-IsDistinct = ((ground arith, tt), (tt, tt))

basket-IsAvailable : All (IsAvailable 5 cdf db.listings) (cart_items_of basket.id db.cart_items)
unfolding cart_items_of select find
basket-IsAvailable = (
  record {
    listing = rice;
    found = refl;
    kept = refl;
    on_sale = refl;
    of_seller = refl;
    priced = refl;
    enough = ground arith;
  },
  (
    record {
      listing = beans;
      found = refl;
      kept = refl;
      on_sale = refl;
      of_seller = refl;
      priced = refl;
      enough = ground arith;
    },
    tt,
  ),
)

some_items : is_empty (cart_items_of basket.id db.cart_items) ≡ false
unfolding cart_items_of select
some_items = refl

create_from_cart-totals_example :
    (find_order 100 (create_from_cart env 11 to_pick_up db).1 ≡ some placed_order)
    × (placed_order.status ≡ OrderStatus.preparing)
    × (placed_order.subtotal_cents ≡ sum_by (λ r. r.line_total_cents) response.items)
    × (placed_order.total_cents ≡ placed_order.subtotal_cents + placed_order.delivery_fee_cents)
    × (placed_order.delivery_fee_cents ≡ 0)
create_from_cart-totals_example =
    create_from_cart-totals env 11 to_pick_up db response checks_out new_id

create_from_cart-stock_example :
    stock 7 (create_from_cart env 11 to_pick_up db).1.listings
      + ordered 7 (cart_items_of basket.id db.cart_items)
    ≡ stock 7 db.listings
create_from_cart-stock_example =
    create_from_cart-stock env 11 to_pick_up db response checks_out buyer basket its_buyer
      its_basket basket-IsDistinct 7

create_from_cart-IsAvailable_example :
    All (IsAvailable 5 cdf db.listings) (cart_items_of basket.id db.cart_items)
create_from_cart-IsAvailable_example =
    create_from_cart-IsAvailable env 11 to_pick_up db buyer basket 5 cdf its_buyer its_basket refl
      refl response checks_out

basket_cost : sum_by (cost db.listings) (cart_items_of basket.id db.cart_items) ≤ 2147483647
unfolding sum_by cart_items_of select find
basket_cost = omega arith

create_from_cart-succeeds_example :
    (resp : OrderResponse) × ((create_from_cart env 11 to_pick_up db).0 ≡ ok resp)
create_from_cart-succeeds_example =
    create_from_cart-succeeds env 11 to_pick_up db buyer basket 5 cdf its_buyer its_basket refl refl
      refl some_items basket-IsAvailable basket_cost

cancel_by_system-create_from_cart_example :
    let db' = (create_from_cart env 11 to_pick_up db).1 in
    let (r, after) = cancel_by_system later 100 db' in
    (r ≡ ok tt) × (stock 8 after.listings ≡ stock 8 db.listings)
cancel_by_system-create_from_cart_example =
    cancel_by_system-create_from_cart env later 11 to_pick_up db response checks_out buyer basket 5
      cdf its_buyer its_basket refl refl basket-IsDistinct new_id 8
