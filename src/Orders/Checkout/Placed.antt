-- ===== src/Orders/Checkout/Placed.antt =====
-- A call of `createFromCart` (src/modules/orders/orders.service.ts) taken apart: what it read and
-- wrote when it succeeded, and that it wrote nothing when it threw.
use bomboli_server.Prelude.{
  ℕ, ◌≡◌, ◌==◌, ◌⊎◌, refl, false, Option, none, some, List, [], ◌∷◌, ◌++◌, is_empty, find, delete,
  update, by_id, arith, inl, inr, Option-cases, ==-refl, ◌∙◌, ap, ◌+◌, ◌*◌,
}
use bomboli_server.Db.{
  Db, Env, User, Listing, Cart, CartItem, Order, Currency, Event, AddressSnapshot, order_event,
  OrderEventName, Error, ok, err, Result, pure, Action, ◌>>=◌, Run-cases, cart_key, order_key,
}
use bomboli_server.Users.{find_by_supabase_id, get_by_supabase_id_or_fail}
use bomboli_server.Users.Addresses.{find_owned_or_fail}
use bomboli_server.Orders.Access.{get_by_id, compose, find_order}
use bomboli_server.Orders.Checkout.{
  CreateOrderInput, ItemData, cart_items_of, lock_listings, resolve_address, reserve_all, order_row,
  order_items_from, live, reserve_item, unlock_cart, checkout, create_from_cart,
}

pub find_owned_or_fail-pure : (actor i : ℕ) (db : Db) → (find_owned_or_fail actor i db).1 ≡ db
unfolding find_owned_or_fail get_by_supabase_id_or_fail
find_owned_or_fail-pure actor i db = ground arith

resolve_address-pure :
    (actor : ℕ) (dto : CreateOrderInput) (db : Db) → (resolve_address actor dto db).1 ≡ db
unfolding resolve_address find_owned_or_fail get_by_supabase_id_or_fail
resolve_address-pure actor dto db = ground arith

-- What a successful transaction read, and the state that it left.
pub record Checked (env : Env) (dto : CreateOrderInput) (address : Option AddressSnapshot)
    (user_id : ℕ) (db db' : Db) (order : Order) : Type 0 where
  pub cart : Cart
  pub seller : ℕ
  pub currency : Currency
  pub out : List ItemData × ℕ
  pub reserved : Db
  pub cart_found : find (λ c. c.user_id == user_id) db.carts ≡ some cart
  pub some_items : is_empty (cart_items_of cart.id db.cart_items) ≡ false
  pub has_seller : cart.seller_id ≡ some seller
  pub has_currency : cart.currency ≡ some currency
  pub reserve :
      reserve_all env seller currency
        (lock_listings (cart_items_of cart.id db.cart_items) db.listings)
        (cart_items_of cart.id db.cart_items)
        db
      ≡ (ok out, reserved)
  pub is_order : order ≡ order_row env dto address user_id seller currency out.1
  pub written : db' ≡ record reserved {
    orders = order ∷ reserved.orders;
    order_items = order_items_from env order.id 1 out.0 ++ reserved.order_items;
    cart_items = delete (λ i. i.cart_id == cart.id) reserved.cart_items;
    carts = update (by_id cart.id) unlock_cart reserved.carts;
  }

module _ (env : Env) (dto : CreateOrderInput) (address : Option AddressSnapshot) (user_id : ℕ)
    (db : Db) where
  checkout_cart :
      (db' : Db) (order : Order) (cart : Cart) (seller : ℕ) (currency : Currency)
      → find (λ c. c.user_id == user_id) db.carts ≡ some cart
      → cart.seller_id ≡ some seller
      → cart.currency ≡ some currency
      → checkout env dto address user_id db ≡ (ok order, db')
      → Checked env dto address user_id db db' order
  unfolding checkout
  checkout_cart db' order cart seller currency c s m h =
      let items = cart_items_of cart.id db.cart_items in
      elim (Run-cases
        (reserve_all env seller currency (lock_listings items db.listings) items db)) [
          | inr (x, db₁, e) ↦ ground arith
          | inl (out, db₁, e) ↦ record {
            cart = cart;
            seller = seller;
            currency = currency;
            out = out;
            reserved = db₁;
            cart_found = c;
            some_items = ground arith;
            has_seller = s;
            has_currency = m;
            reserve = e;
            is_order = ground arith;
            written = ground arith;
          }
        ]

  checkout-Checked :
      (db' : Db) (order : Order)
      → checkout env dto address user_id db ≡ (ok order, db')
      → Checked env dto address user_id db db' order
  unfolding checkout
  checkout-Checked db' order h = elim (Option-cases (find (λ c. c.user_id == user_id) db.carts)) [
    | inl e ↦ ground arith
    | inr (cart, e) ↦ elim (Option-cases cart.seller_id) [
      | inl s ↦ ground arith
      | inr (seller, s) ↦ elim (Option-cases cart.currency) [
        | inl m ↦ ground arith
        | inr (currency, m) ↦ checkout_cart db' order cart seller currency e s m h
      ]
    ]
  ]

-- Nothing but the listings differs.
abbrev OnlyListings : Db → Db → Type 0
OnlyListings a b = b ≡ record a { listings = b.listings }

OnlyListings-trans : (a b c : Db) → OnlyListings a b → OnlyListings b c → OnlyListings a c
OnlyListings-trans a b c h k = k ∙ ap (λ (x : Db). record x { listings = c.listings }) h

OnlyListings-bind :
    {A B : Type 0} (m : Action A) (f : A → Action B) (db : Db)
    → OnlyListings db (m db).1
    → ((a : A) (db₁ : Db) → OnlyListings db₁ (f a db₁).1)
    → OnlyListings db ((m >>= f) db).1
OnlyListings-bind {A} {B} m f db h k = ends (m db) h
  where
    ends :
        (s : Result A × Db)
        → OnlyListings db s.1
        → OnlyListings db
            (elim s.0 as (λ _. Result B × Db) [ ok a ↦ f a s.1 | err e ↦ (err e, s.1) ]).1
    ends (ok a, db₁) h₁ = OnlyListings-trans db db₁ (f a db₁).1 h₁ (k a db₁)
    ends (err e, db₁) h₁ = h₁

-- The loop writes the listings alone, also when it throws.
reserve_item-frame :
    (env : Env) (seller : ℕ) (currency : Currency) (locked : List Listing) (i : CartItem) (db : Db)
    → OnlyListings db (reserve_item env seller currency locked i db).1
unfolding reserve_item live
reserve_item-frame env seller currency locked i db = ground arith

pub reserve_all-frame :
    (env : Env) (seller : ℕ) (currency : Currency) (locked : List Listing) (items : List CartItem)
    (db : Db)
    → OnlyListings db (reserve_all env seller currency locked items db).1
unfolding reserve_all
reserve_all-frame env seller currency locked [] db = refl
reserve_all-frame env seller currency locked (i ∷ items) db =
    let rest = reserve_all env seller currency locked items in
    let finish : ItemData → List ItemData × ℕ → Action (List ItemData × ℕ) =
      λ d r. pure (d ∷ r.0, d.price_cents_snapshot * d.quantity + r.1) in
    OnlyListings-bind (reserve_item env seller currency locked i) (λ d. rest >>= finish d) db
      (reserve_item-frame env seller currency locked i db)
      (λ d db₁.
        OnlyListings-bind rest (finish d) db₁
          (reserve_all-frame env seller currency locked items db₁) (λ r db₂. refl {a = db₂}))

abbrev pub created_event : Order → Event
created_event o = order_event OrderEventName.created (record {
  order_id = o.id;
  buyer_id = o.buyer_id;
  seller_id = o.seller_id;
  status = o.status;
  previous_status = none;
  at = o.created_at;
})

get_by_id-created :
    (actor : ℕ) (user : User) (order : Order) (db : Db)
    → find_by_supabase_id actor db ≡ some user
    → find_order order.id db ≡ some order
    → order.buyer_id ≡ user.id
    → get_by_id actor order.id db ≡ (ok (compose order db), db)
unfolding get_by_id get_by_supabase_id_or_fail
get_by_id-created actor user order db u o b = ground (arith, u, o, b)

-- What a checkout that placed an order read, and the state that it left.
pub record Placed (env : Env) (actor : ℕ) (dto : CreateOrderInput) (db db' : Db) (order : Order)
    : Type 0 where
  pub user : User
  pub address : Option AddressSnapshot
  pub committed : Db
  pub user_found : find_by_supabase_id actor db ≡ some user
  pub address_found : resolve_address actor dto db ≡ (ok address, db)
  pub checked : Checked env dto address user.id db committed order
  pub emitted : db' ≡ record committed { events = created_event order ∷ committed.events }

module _ (env : Env) (dto : CreateOrderInput) (address : Option AddressSnapshot) where
  -- The order of a committed transaction can be read back, by its buyer.
  Checked-readable :
      (actor : ℕ) (user : User) (db db₁ : Db) (order : Order)
      → find_by_supabase_id actor db ≡ some user
      → Checked env dto address user.id db db₁ order
      → let db' = record db₁ { events = created_event order ∷ db₁.events } in
        get_by_id actor order.id db' ≡ (ok (compose order db'), db')
  unfolding find_by_supabase_id find_order find order_row
  Checked-readable actor user db db₁ order u c =
      let frame =
        reserve_all-frame env c.seller c.currency
          (lock_listings (cart_items_of c.cart.id db.cart_items) db.listings)
          (cart_items_of c.cart.id db.cart_items) db in
      let db' : Db = record db₁ { events = created_event order ∷ db₁.events } in
      get_by_id-created actor user order db' (ground (arith, c.written, frame, c.reserve, u))
        (ground (arith, c.written, ==-refl order.id)) (ground (arith, c.is_order))

  -- A committed transaction makes the call succeed.
  pub committed_checkout :
      (actor : ℕ) (user : User) (db db₁ : Db) (order : Order)
      → find_by_supabase_id actor db ≡ some user
      → resolve_address actor dto db ≡ (ok address, db)
      → checkout env dto address user.id db ≡ (ok order, db₁)
      → let db' = record db₁ { events = created_event order ∷ db₁.events } in
        create_from_cart env actor dto db ≡ (ok (compose order db'), db')
  unfolding create_from_cart get_by_supabase_id_or_fail
  committed_checkout actor user db db₁ order u a e =
      let c = checkout-Checked env dto address user.id db db₁ order e in
      ground (arith, u, a, e, Checked-readable actor user db db₁ order u c)

  -- The transaction and what follows it, once the user and the address are known.
  finish_checkout :
      (actor : ℕ) (user : User) (db : Db)
      → find_by_supabase_id actor db ≡ some user
      → resolve_address actor dto db ≡ (ok address, db)
      → ((order : Order) × (db' : Db) × Placed env actor dto db db' order
          × (create_from_cart env actor dto db ≡ (ok (compose order db'), db')))
        ⊎ ((e : Error) × (create_from_cart env actor dto db ≡ (err e, db)))
  unfolding create_from_cart get_by_supabase_id_or_fail
  finish_checkout actor user db u a = elim (Run-cases (checkout env dto address user.id db)) [
    | inr (x, db₁, e) ↦ inr (x, ground (arith, u, a, e))
    | inl (order, db₁, e) ↦
        let c = checkout-Checked env dto address user.id db db₁ order e in
        inl (
          order,
          record db₁ { events = created_event order ∷ db₁.events },
          record {
            user = user;
            address = address;
            committed = db₁;
            user_found = u;
            address_found = a;
            checked = c;
            emitted = refl;
          },
          committed_checkout actor user db db₁ order u a e,
        )
  ]

-- A checkout either places an order, or throws and changes nothing.
pub create_from_cart-cases :
    (env : Env) (actor : ℕ) (dto : CreateOrderInput) (db : Db)
    → ((order : Order) × (db' : Db) × Placed env actor dto db db' order
        × (create_from_cart env actor dto db ≡ (ok (compose order db'), db')))
      ⊎ ((e : Error) × (create_from_cart env actor dto db ≡ (err e, db)))
unfolding create_from_cart get_by_supabase_id_or_fail
create_from_cart-cases env actor dto db = elim (Option-cases (find_by_supabase_id actor db)) [
  | inl u ↦ inr (Error.not_found, ground (arith, u))
  | inr (user, u) ↦ elim (Run-cases (resolve_address actor dto db)) [
    | inr (x, db₁, a) ↦ inr (x, ground (arith, u, a, resolve_address-pure actor dto db))
    | inl (address, db₁, a) ↦
        finish_checkout env dto address actor user db u
          (ground (arith, a, resolve_address-pure actor dto db))
  ]
]
