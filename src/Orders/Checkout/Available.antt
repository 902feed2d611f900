-- ===== src/Orders/Checkout/Available.antt =====
-- When `createFromCart` (src/modules/orders/orders.service.ts) succeeds.
use bomboli_server.Prelude.{
  ℕ, ◌+◌, ◌*◌, ◌≤◌, ◌≡◌, ◌∙◌, ◌==◌, refl, sym, subst₃, ap, false, none, some, List, [], ◌∷◌,
  is_empty, find, by_id, All, Option, ap₂, before, sum_by, arith, ==→eq, inl, inr,
}
use bomboli_server.Db.{
  Db, Env, User, Cart, CartItem, Listing, Currency, published, pickup, ok, Run-cases, listing_key,
}
use bomboli_server.Users.{find_by_supabase_id}
use bomboli_server.Orders.Access.{OrderResponse, compose}
use bomboli_server.Orders.Checkout.{
  CreateOrderInput, ItemData, cart_items_of, lock_listings, live, reserve_item, reserve_all,
  resolve_address, item_data, fee_of, order_row, checkout, create_from_cart,
}
use bomboli_server.Orders.Checkout.Stock.{reserve_all-cons, Untouched, Reserved}
use bomboli_server.Orders.Checkout.Lines.{lock_listings-Untouched}
use bomboli_server.Orders.Checkout.Placed.{created_event, committed_checkout}
use bomboli_server.Orders.Checkout.Outcome.{placed}
use bomboli_server.Orders.Checkout.Effects.{its_cart}

-- An item can be sold: its listing is there, not deleted and published, belongs to the seller, is
-- priced in the currency, and offers the quantity.
pub record IsAvailable (seller : ℕ) (currency : Currency) (rows : List Listing) (i : CartItem)
    : Type 0 where
  pub listing : Listing
  pub found : find (by_id i.listing_id) rows ≡ some listing
  pub kept : listing.deleted_at ≡ none
  pub on_sale : listing.status ≡ published
  pub of_seller : listing.seller_id ≡ seller
  pub priced : listing.currency ≡ currency
  pub enough : i.quantity ≤ listing.quantity_available

-- What an item of a cart costs.
abbrev pub cost : List Listing → CartItem → ℕ
cost rows i = before (λ l. l.price_cents) 0 (find (by_id i.listing_id) rows) * i.quantity

module _ (env : Env) (seller : ℕ) (currency : Currency) (locked : List Listing) where
  Reserved-IsAvailable :
      (i : CartItem) (listing : Listing) (db db' : Db) (d : ItemData)
      → Reserved env seller currency i listing locked db db' d
      → IsAvailable seller currency locked i
  Reserved-IsAvailable i listing db db' d r = record {
    listing = listing;
    found = r.found;
    kept = ground (arith, r.is_live);
    on_sale = ground (arith, r.is_published);
    of_seller = ==→eq _ _ r.of_seller;
    priced = ground (arith, r.in_currency);
    enough = r.enough;
  }

  reserve_all-IsAvailable :
      (items : List CartItem) (db db' : Db) (out : List ItemData × ℕ)
      → reserve_all env seller currency locked items db ≡ (ok out, db')
      → All (IsAvailable seller currency locked) items
  reserve_all-IsAvailable [] db db' out e = tt
  reserve_all-IsAvailable (i ∷ items) db db' out e =
      let (listing, d, db₁, rest, r, e', _) =
        reserve_all-cons env seller currency locked i items db db' out e in
      (Reserved-IsAvailable i listing db db₁ d r, reserve_all-IsAvailable items db₁ db' rest e')

  reserve_item-ok :
      (i : CartItem) (db : Db)
      → IsAvailable seller currency locked i
      → (d : ItemData) × ((reserve_item env seller currency locked i db).0 ≡ ok d)
        × (d.price_cents_snapshot * d.quantity ≡ cost locked i)
  unfolding reserve_item live item_data
  reserve_item-ok i db a = elim (Run-cases (reserve_item env seller currency locked i db)) [
    | inl (d, db₁, e) ↦
        let priced_as : d.price_cents_snapshot ≡ a.listing.price_cents =
          ground (arith, e, a.found) in
        let as_many : d.quantity ≡ i.quantity = ground (arith, e, a.found) in
        (d, ground (arith, e), rw (priced_as, as_many, a.found) refl)
    | inr (x, db₁, e) ↦
        absurd (ground (arith, e, a.found, a.kept, a.on_sale, a.of_seller, a.priced, a.enough))
  ]

  reserve_all-ok :
      (items : List CartItem) (db : Db)
      → All (IsAvailable seller currency locked) items
      → (out : List ItemData × ℕ) × ((reserve_all env seller currency locked items db).0 ≡ ok out)
        × (out.1 ≡ sum_by (cost locked) items)
  unfolding reserve_all sum_by
  reserve_all-ok [] db a = (([], 0), refl, refl)
  reserve_all-ok (i ∷ items) db a =
      let (d, e, c) = reserve_item-ok i db a.0 in
      let db₁ = (reserve_item env seller currency locked i db).1 in
      let (out, k, t) = reserve_all-ok items db₁ a.1 in
      (
        (d ∷ out.0, d.price_cents_snapshot * d.quantity + out.1),
        ground (arith, e, k),
        ap₂ (◌+◌) c t,
      )

costs_agree :
    (from to : List Listing) (items : List CartItem)
    → All (λ i. find (by_id i.listing_id) from ≡ find (by_id i.listing_id) to) items
    → sum_by (cost from) items ≡ sum_by (cost to) items
unfolding sum_by
costs_agree from to [] same = refl
costs_agree from to (i ∷ items) same =
    ap₂ (◌+◌) (ap (λ (o : Option Listing). before (λ l. l.price_cents) 0 o * i.quantity) same.0)
      (costs_agree from to items same.1)

-- The locked rows are the rows of the table, for the items of the cart.
IsAvailable-All :
    (seller : ℕ) (currency : Currency) (from to : List Listing) (items : List CartItem)
    → All (λ i. find (by_id i.listing_id) from ≡ find (by_id i.listing_id) to) items
    → All (IsAvailable seller currency from) items
    → All (IsAvailable seller currency to) items
IsAvailable-All seller currency from to [] same a = tt
IsAvailable-All seller currency from to (i ∷ items) same (a, rest) = (
  record {
    listing = a.listing;
    found = sym same.0 ∙ a.found;
    kept = a.kept;
    on_sale = a.on_sale;
    of_seller = a.of_seller;
    priced = a.priced;
    enough = a.enough;
  },
  IsAvailable-All seller currency from to items same.1 rest,
)

Untouched-sym :
    (locked rows : List Listing) (items : List CartItem)
    → Untouched locked items rows
    → Untouched rows items locked
Untouched-sym locked rows [] h = tt
Untouched-sym locked rows (i ∷ items) h = (sym h.0, Untouched-sym locked rows items h.1)

module _ (env : Env) (actor : ℕ) (dto : CreateOrderInput) (db : Db) (user : User) (cart : Cart)
    (seller : ℕ) (currency : Currency) (u : find_by_supabase_id actor db ≡ some user)
    (f : find (λ c. c.user_id == user.id) db.carts ≡ some cart) (s : cart.seller_id ≡ some seller)
    (m : cart.currency ≡ some currency) where
  -- An order is placed only if every item of the buyer's cart can be sold: nothing is oversold.
  pub create_from_cart-IsAvailable :
      (resp : OrderResponse)
      → (create_from_cart env actor dto db).0 ≡ ok resp
      → All (IsAvailable seller currency db.listings) (cart_items_of cart.id db.cart_items)
  create_from_cart-IsAvailable resp done =
      let (db', p, c, _) = placed env actor dto db resp done in
      let k = p.checked in
      let same = its_cart env actor dto db resp done user cart p u f in
      let items = cart_items_of k.cart.id db.cart_items in
      let locked = lock_listings items db.listings in
      let of_seller : k.seller ≡ seller = ground (arith, same, k.has_seller, s) in
      let of_currency : k.currency ≡ currency = ground (arith, same, k.has_currency, m) in
      subst₃
        (λ (x : ℕ) (y : Currency) (z : Cart).
          All (IsAvailable x y db.listings) (cart_items_of z.id db.cart_items))
        of_seller of_currency same
        (IsAvailable-All k.seller k.currency locked db.listings items
          (Untouched-sym locked db.listings items (lock_listings-Untouched items db.listings))
          (reserve_all-IsAvailable env k.seller k.currency locked items db k.reserved k.out
            k.reserve))

  -- Conversely, a pickup order is placed whenever the cart holds an item, each can be sold, and what
  -- they cost together is at most 2147483647 cents, the largest number that its columns hold.
  pub create_from_cart-succeeds :
      dto.fulfillment_type ≡ pickup
      → is_empty (cart_items_of cart.id db.cart_items) ≡ false
      → All (IsAvailable seller currency db.listings) (cart_items_of cart.id db.cart_items)
      → sum_by (cost db.listings) (cart_items_of cart.id db.cart_items) ≤ 2147483647
      → (resp : OrderResponse) × ((create_from_cart env actor dto db).0 ≡ ok resp)
  unfolding resolve_address checkout order_row fee_of
  create_from_cart-succeeds picks some_items a small =
      let items = cart_items_of cart.id db.cart_items in
      let locked = lock_listings items db.listings in
      let untouched = lock_listings-Untouched items db.listings in
      let (out, e, t) = reserve_all-ok env seller currency locked items db (
        IsAvailable-All seller currency db.listings locked items
          (lock_listings-Untouched items db.listings) a) in
      let fits : out.1 ≤ 2147483647 = omega (
        arith,
        t,
        costs_agree locked db.listings items (Untouched-sym locked db.listings items untouched),
        small,
      ) in
      elim (Run-cases (checkout env dto none user.id db)) [
        | inl (order, db₁, k) ↦
            let db' : Db = record db₁ { events = created_event order ∷ db₁.events } in
            (
              compose order db',
              ap (λ r. r.0)
                  (committed_checkout env dto none actor user db db₁ order u (ground (arith, picks))
                    k),
            )
        | inr (x, db₁, k) ↦ absurd (ground (arith, k, f, s, m, some_items, e, fits, picks))
      ]
