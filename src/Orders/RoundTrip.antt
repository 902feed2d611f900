-- ===== src/Orders/RoundTrip.antt =====
-- A checkout (`createFromCart`) and the automatic cancellation after it (`cancelBySystem`), both of
-- src/modules/orders/orders.service.ts.
use bomboli_server.Prelude.{
  ℕ, suc, ◌==◌, ◌≡◌, ◌∙◌, refl, subst, true, false, some, List, [], ◌∷◌, find, by_id, sum_by, arith,
  All, Option-cases, Bool-cases, inl, inr, ==→eq,
}
use bomboli_server.Db.{
  Db, Env, User, Cart, CartItem, Listing, Currency, OrderStatus, ok, listing_key, cart_key,
}
use bomboli_server.Users.{find_by_supabase_id}
use bomboli_server.Orders.Access.{OrderResponse, items_of}
use bomboli_server.Orders.Checkout.{
  CreateOrderInput, ItemData, cart_items_of, lock_listings, reserve_all, order_items_from,
  create_from_cart, take_stock,
}
use bomboli_server.Orders.Checkout.Stock.{
  stock, ordered, IsDistinct, reserve_all-cons, find-take_stock,
}
use bomboli_server.Orders.Checkout.Lines.{ordered_lines, reserve_all-ordered}
use bomboli_server.Orders.Checkout.Available.{IsAvailable, create_from_cart-IsAvailable}
use bomboli_server.Orders.Checkout.Outcome.{placed, written_items, create_from_cart-totals}
use bomboli_server.Orders.Checkout.Effects.{its_cart, create_from_cart-stock}
use bomboli_server.Orders.Cancel.{is_final, cancel_by_system}
use bomboli_server.Orders.Cancel.Restock.{held, is_listed, stock-restock}
use bomboli_server.Orders.Cancel.Effects.{cancel_by_system-cases}

held-order_items_from :
    (env : Env) (order_id n l : ℕ) (lines : List ItemData)
    → held l (order_items_from env order_id n lines) ≡ ordered_lines l lines
unfolding held ordered_lines sum_by order_items_from
held-order_items_from env order_id n l [] = refl
held-order_items_from env order_id n l (d ∷ lines) =
    ground (arith, held-order_items_from env order_id (suc n) l lines)

is_listed-take_stock :
    (env : Env) (listing : Listing) (q l : ℕ) (rows : List Listing)
    → is_listed l (take_stock env listing q rows) ≡ is_listed l rows
unfolding is_listed
is_listed-take_stock env listing q l rows =
    rw (find-take_stock env listing q l rows) (elim (Option-cases (find (by_id l) rows)) [
      | inl e ↦ rw e
      | inr (r, e) ↦ rw e (ground arith)
    ])

-- The checkout deletes no listing.
reserve_all-is_listed :
    (env : Env) (seller : ℕ) (currency : Currency) (locked : List Listing) (items : List CartItem)
    (db db' : Db) (out : List ItemData × ℕ)
    → reserve_all env seller currency locked items db ≡ (ok out, db')
    → (l : ℕ) → is_listed l db'.listings ≡ is_listed l db.listings
unfolding reserve_all
reserve_all-is_listed env seller currency locked [] db db' out e l = ground arith
reserve_all-is_listed env seller currency locked (i ∷ items) db db' out e l =
    let (listing, d, db₁, rest, r, e', _) =
      reserve_all-cons env seller currency locked i items db db' out e in
    reserve_all-is_listed env seller currency locked items db₁ db' rest e' l
    ∙ rw r.written (is_listed-take_stock env listing _ l db.listings)

-- What can be sold is listed: nothing is ordered of a listing that is not.
ordered-unlisted :
    (seller : ℕ) (currency : Currency) (rows : List Listing) (items : List CartItem) (l : ℕ)
    → All (IsAvailable seller currency rows) items
    → is_listed l rows ≡ false
    → ordered l items ≡ 0
unfolding ordered sum_by is_listed
ordered-unlisted seller currency rows [] l a h = refl
ordered-unlisted seller currency rows (i ∷ items) l (a, rest) h =
    elim (Bool-cases (i.listing_id == l)) [
      | inl e ↦
          let at_l =
            subst (λ (x : ℕ). find (by_id x) rows ≡ some a.listing) (==→eq _ _ e) a.found in
          absurd (ground (arith, h, at_l, a.kept))
      | inr e ↦ ground (arith, e, ordered-unlisted seller currency rows items l rest h)
    ]

not_final : (s : OrderStatus) → s ≡ OrderStatus.preparing → is_final s ≡ true → ⊥
unfolding is_final
not_final s e h = ground (arith, e, h)

module _ (env later : Env) (actor : ℕ) (dto : CreateOrderInput) (db : Db) (resp : OrderResponse)
    (done : (create_from_cart env actor dto db).0 ≡ ok resp) where
  -- What the new order holds of a listing is what its buyer's cart asked for.
  held-created :
      (user : User) (cart : Cart)
      → find_by_supabase_id actor db ≡ some user
      → find (λ c. c.user_id == user.id) db.carts ≡ some cart
      → items_of (env.fresh 0) db ≡ []
      → (l : ℕ)
      → held l (items_of resp.order.id (create_from_cart env actor dto db).1)
        ≡ ordered l (cart_items_of cart.id db.cart_items)
  held-created user cart u f new_id l =
      let (db', p, c, _) = placed env actor dto db resp done in
      let k = p.checked in
      let items = cart_items_of k.cart.id db.cart_items in
      rw
        (
          c,
          ← its_cart env actor dto db resp done user cart p u f,
          written_items env actor dto db db' resp.order p new_id,
        )
        (held-order_items_from env resp.order.id 1 l k.out.0
          ∙ reserve_all-ordered env k.seller k.currency (lock_listings items db.listings) items db
              k.reserved k.out k.reserve l)

  is_listed-created :
      (l : ℕ) → is_listed l (create_from_cart env actor dto db).1.listings ≡ is_listed l db.listings
  is_listed-created l =
      let (db', p, c, _) = placed env actor dto db resp done in
      let k = p.checked in
      let items = cart_items_of k.cart.id db.cart_items in
      rw (c, p.emitted, k.written)
        (reserve_all-is_listed env k.seller k.currency (lock_listings items db.listings) items db
          k.reserved k.out k.reserve l)

  -- After a checkout, the automatic cancellation of the new order (which a failed payment brings
  -- about) puts the stock of every listing back to what it was before the checkout, if no listing
  -- stands twice in the cart and the new order's id names no row of `order_items` yet.
  pub cancel_by_system-create_from_cart :
      (user : User) (cart : Cart) (seller : ℕ) (currency : Currency)
      → find_by_supabase_id actor db ≡ some user
      → find (λ c. c.user_id == user.id) db.carts ≡ some cart
      → cart.seller_id ≡ some seller
      → cart.currency ≡ some currency
      → IsDistinct (cart_items_of cart.id db.cart_items)
      → items_of (env.fresh 0) db ≡ []
      → (l : ℕ)
      → let db' = (create_from_cart env actor dto db).1 in
        let (r, after) = cancel_by_system later resp.order.id db' in
        (r ≡ ok tt) × (stock l after.listings ≡ stock l db.listings)
  cancel_by_system-create_from_cart user cart seller currency u f s m distinct new_id l =
      let db' = (create_from_cart env actor dto db).1 in
      let totals = create_from_cart-totals env actor dto db resp done new_id in
      let items = cart_items_of cart.id db.cart_items in
      let sold = create_from_cart-stock env actor dto db resp done user cart u f distinct l in
      let holds = held-created user cart u f new_id l in
      let lists = is_listed-created l in
      let open_order =
        create_from_cart-IsAvailable env actor dto db user cart seller currency u f s m resp done in
      elim (cancel_by_system-cases later resp.order.id db') [
        | inr (final, c) ↦ absurd (not_final resp.order.status totals.1 (final resp.order totals.0))
        | inl (order, o, going, c) ↦
            let same : order ≡ resp.order = ground (arith, o, totals.0) in
            let back = stock-restock later (items_of resp.order.id db') l db'.listings in
            rw (c, same)
              (
                refl,
                elim (Bool-cases (is_listed l db.listings)) [
                  | inl yes_listed ↦ ground (arith, back, lists, yes_listed, holds, sold)
                  | inr unlisted ↦ ground (
                    arith,
                    back,
                    lists,
                    unlisted,
                    sold,
                    ordered-unlisted seller currency db.listings items l open_order unlisted,
                  )
                ],
              )
      ]
