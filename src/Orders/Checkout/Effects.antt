-- ===== src/Orders/Checkout/Effects.antt =====
-- What `createFromCart` (src/modules/orders/orders.service.ts) does to the stock and to the cart.
use bomboli_server.Prelude.{ℕ, ◌+◌, ◌≡◌, ◌==◌, sym, subst, some, find, arith}
use bomboli_server.Db.{Db, Env, User, Cart, ok, cart_key}
use bomboli_server.Users.{find_by_supabase_id}
use bomboli_server.Orders.Access.{OrderResponse}
use bomboli_server.Orders.Checkout.{
  CreateOrderInput, cart_items_of, lock_listings, create_from_cart,
}
use bomboli_server.Orders.Checkout.Stock.{stock, ordered, IsDistinct, reserve_all-stock}
use bomboli_server.Orders.Checkout.Placed.{Placed}
use bomboli_server.Orders.Checkout.Outcome.{placed}
use bomboli_server.Orders.Checkout.Lines.{lock_listings-Untouched}

module _ (env : Env) (actor : ℕ) (dto : CreateOrderInput) (db : Db) (resp : OrderResponse)
    (done : (create_from_cart env actor dto db).0 ≡ ok resp) where
  pub its_cart :
      (user : User) (cart : Cart) {db' : Db} (p : Placed env actor dto db db' resp.order)
      → find_by_supabase_id actor db ≡ some user
      → find (λ c. c.user_id == user.id) db.carts ≡ some cart
      → p.checked.cart ≡ cart
  its_cart user cart p u f =
      let same : p.user ≡ user = ground (arith, p.user_found, u) in
      let found =
        subst (λ (x : User). find (λ c. c.user_id == x.id) db.carts ≡ some p.checked.cart) same
          p.checked.cart_found in
      ground (arith, found, f)

  -- A checkout takes from the stock of each listing exactly what the items of the buyer's cart
  -- asked for, if no listing stands twice in the cart.
  pub create_from_cart-stock :
      (user : User) (cart : Cart)
      → find_by_supabase_id actor db ≡ some user
      → find (λ c. c.user_id == user.id) db.carts ≡ some cart
      → IsDistinct (cart_items_of cart.id db.cart_items)
      → (l : ℕ)
      → stock l (create_from_cart env actor dto db).1.listings
          + ordered l (cart_items_of cart.id db.cart_items)
        ≡ stock l db.listings
  create_from_cart-stock user cart u f distinct l =
      let (db', p, c, _) = placed env actor dto db resp done in
      let k = p.checked in
      let items = cart_items_of k.cart.id db.cart_items in
      let e = its_cart user cart p u f in
      rw (c, ← e, p.emitted, k.written)
        (reserve_all-stock env k.seller k.currency (lock_listings items db.listings) items db
          k.reserved k.out
          (subst (λ (x : Cart). IsDistinct (cart_items_of x.id db.cart_items)) (sym e) distinct)
          (lock_listings-Untouched items db.listings) k.reserve l)
