-- ===== src/Cart/Consistent.antt =====
-- What the operations of src/modules/cart/cart.service.ts keep true of the rows of `cart_items`.
use bomboli_server.Prelude.{
  ℕ, ◌==◌, ◌≡◌, ◌∙◌, ◌⊎◌, inl, inr, refl, ap, false, Option, none, some, List, [], ◌∷◌, ◌++◌, find,
  update, delete, by_id, map_some, find-update, find-own_id, find-update_self, ==-refl, All,
  All-map_impl, arith, Option-cases, Bool-cases, UniqueIds,
}
use bomboli_server.Db.{
  Db, Env, Listing, Cart, CartItem, Error, ErrorCode, ok, err, listing_key, cart_key, cart_item_key,
}
use bomboli_server.Cart.{
  ItemArgs, cart_of_user, insert_cart, has_other_seller, has_other_currency, lock_to, lock_cart,
  is_line, add_quantity, new_item, upsert_rows, upsert_item, put_in_cart, clear_cart, swap,
  set_quantity,
}
use bomboli_server.Cart.Fits.{
  Fits, IsConsistent, All-append_one, All-delete, All-update_impl, Fits-insert_cart, Fits-lock_to,
  Fits-update_other,
}

-- What the requests rely on: no two carts have one id, and the id for a new cart is not in use.
pub record IsReady (env : Env) (db : Db) : Type 0 where
  pub unique : UniqueIds db.carts
  pub new_id : find (by_id (env.fresh 0)) db.carts ≡ none

abbrev pub HasCart : ℕ → Db → Type 0
HasCart user_id db = (c : Cart) × (cart_of_user user_id db ≡ some c)

abbrev new_cart : Env → ℕ → Listing → Cart
new_cart env user_id l = record {
  id = env.fresh 0;
  user_id = user_id;
  seller_id = some l.seller_id;
  currency = some l.currency;
}

-- An item for the listing in a cart that is bound to it.
Fits-new_item :
    (env : Env) (listings : List Listing) (carts : List Cart) (c : Cart) (l : Listing)
    (args : ItemArgs)
    → find (by_id c.id) carts ≡ some (lock_to l c)
    → find (by_id args.listing_id) listings ≡ some l
    → Fits listings carts (new_item env c.id args)
Fits-new_item env listings carts c l args there found = record {
  cart = lock_to l c;
  listing = l;
  has_cart = there;
  has_listing = found;
  of_seller = refl;
  in_currency = refl;
}

Fits-add_quantity :
    (listings : List Listing) (carts : List Cart) (q : ℕ) (i : CartItem)
    → Fits listings carts i
    → Fits listings carts (add_quantity q i)
Fits-add_quantity listings carts q i h = record {
  cart = h.cart;
  listing = h.listing;
  has_cart = h.has_cart;
  has_listing = h.has_listing;
  of_seller = h.of_seller;
  in_currency = h.in_currency;
}

pub Fits-set_quantity :
    (listings : List Listing) (carts : List Cart) (q : ℕ) (i : CartItem)
    → Fits listings carts i
    → Fits listings carts (set_quantity q i)
Fits-set_quantity listings carts q i h = record {
  cart = h.cart;
  listing = h.listing;
  has_cart = h.has_cart;
  has_listing = h.has_listing;
  of_seller = h.of_seller;
  in_currency = h.in_currency;
}

upsert_rows-All :
    (env : Env) (listings : List Listing) (carts : List Cart) (cart_id : ℕ) (args : ItemArgs)
    (o : Option CartItem) (rows : List CartItem)
    → Fits listings carts (new_item env cart_id args)
    → All (Fits listings carts) rows
    → All (Fits listings carts) (upsert_rows env cart_id args o rows)
unfolding upsert_rows
upsert_rows-All env listings carts cart_id args (some x) rows new h =
    let P = Fits listings carts in
    All-update_impl P P (is_line cart_id args.listing_id) (add_quantity args.quantity) (λ i k. k)
      (λ i k. Fits-add_quantity listings carts args.quantity i k) rows h
upsert_rows-All env listings carts cart_id args none rows new h =
    All-append_one (Fits listings carts) (Fits listings carts) rows (new_item env cart_id args) h
      new

module _ (env : Env) (user_id : ℕ) (l : Listing) (args : ItemArgs) (db : Db) where
  abbrev upserted : Cart → List Cart → Db
  upserted c carts = record db {
    carts = carts;
    cart_items =
        upsert_rows env c.id args (find (is_line c.id args.listing_id) db.cart_items) db.cart_items;
  }

  abbrev swapped : Cart → List Cart → List CartItem → Db
  swapped c carts rows = record db {
    carts = carts;
    cart_items = rows ++ new_item env c.id args ∷ [];
  }

  abbrev kept_items : Cart → List CartItem
  kept_items c = delete (λ i. i.cart_id == c.id) db.cart_items

  abbrev bound_carts : Cart → List Cart
  bound_carts c = update (by_id c.id) (lock_to l) db.carts

  -- The transaction of `addItem`, on every branch.
  put_in_cart-cases :
      ((cart_of_user user_id db ≡ none)
        × (let c = new_cart env user_id l in
            put_in_cart env user_id l args db ≡ (ok c, upserted c (c ∷ db.carts))))
      ⊎ ((c : Cart) × (cart_of_user user_id db ≡ some c)
          × (has_other_seller l.seller_id (some c) ≡ false)
          × (has_other_currency l.currency (some c) ≡ false)
          × (put_in_cart env user_id l args db ≡ (ok (lock_to l c), upserted c (bound_carts c))))
      ⊎ ((e : Error) × (put_in_cart env user_id l args db ≡ (err e, db)))
  unfolding put_in_cart lock_cart upsert_item insert_cart has_other_seller has_other_currency
  put_in_cart-cases = elim (Option-cases (cart_of_user user_id db)) [
    | inl e ↦ inl (e, ground (arith, e))
    | inr (c, e) ↦ elim (Bool-cases (has_other_seller l.seller_id (some c))) [
      | inl s ↦ inr (inr (Error.domain ErrorCode.cart_seller_conflict 409, ground (arith, e, s)))
      | inr s ↦ elim (Bool-cases (has_other_currency l.currency (some c))) [
        | inl m ↦ inr (inr (Error.domain ErrorCode.conflict 409, ground (arith, e, s, m)))
        | inr m ↦ inr (inl (c, e, s, m, ground (arith, e, s, m)))
      ]
    ]
  ]

  -- The transaction of `replace`.
  swap-cases :
      ((cart_of_user user_id db ≡ none)
        × (let c = new_cart env user_id l in
            swap env user_id l args db ≡ (ok tt, swapped c (c ∷ db.carts) db.cart_items)))
      ⊎ ((c : Cart) × (cart_of_user user_id db ≡ some c)
          × (swap env user_id l args db ≡ (ok tt, swapped c (bound_carts c) (kept_items c))))
  unfolding swap lock_cart clear_cart insert_cart
  swap-cases = elim (Option-cases (cart_of_user user_id db)) [
    | inl e ↦ inl (e, ground (arith, e))
    | inr (c, e) ↦ inr (c, e, ground (arith, e))
  ]

  module _ (consistent : IsConsistent db) (ready : IsReady env db)
      (found : find (by_id args.listing_id) db.listings ≡ some l) where
    in_front : All (Fits db.listings (new_cart env user_id l ∷ db.carts)) db.cart_items
    in_front =
        let c = new_cart env user_id l in
        All-map_impl (Fits db.listings db.carts) (Fits db.listings (c ∷ db.carts))
          (λ i h. Fits-insert_cart db.listings db.carts c i ready.new_id h) db.cart_items consistent

    new-Fits :
        Fits db.listings (new_cart env user_id l ∷ db.carts) (new_item env (env.fresh 0) args)
    unfolding find
    new-Fits =
        let c = new_cart env user_id l in
        Fits-new_item env db.listings (c ∷ db.carts) c l args (rw (==-refl c.id) refl) found

    module _ (c : Cart) (e : cart_of_user user_id db ≡ some c) where
      its_id : find (by_id c.id) db.carts ≡ some c
      unfolding cart_of_user
      its_id = find-own_id (λ x. x.user_id == user_id) db.carts c ready.unique e

      bound-Fits : Fits db.listings (bound_carts c) (new_item env c.id args)
      bound-Fits =
          Fits-new_item env db.listings (bound_carts c) c l args
            (find-update_self c.id (lock_to l) (λ x. refl) db.carts
              ∙ ap (map_some (lock_to l)) its_id)
            found

      bound_has_cart : find (λ x. x.user_id == user_id) (bound_carts c) ≡ some (lock_to l c)
      unfolding cart_of_user
      bound_has_cart =
          find-update (λ x. x.user_id == user_id) (by_id c.id) (lock_to l) (λ x. refl) db.carts
          ∙ rw e (rw (==-refl c.id) refl)

      kept-Fits : All (Fits db.listings (bound_carts c)) (kept_items c)
      kept-Fits =
          All-delete (Fits db.listings db.carts) (Fits db.listings (bound_carts c))
            (λ i. i.cart_id == c.id)
            (λ i other h.
              Fits-update_other db.listings db.carts c.id (lock_to l) i (λ x. refl) other h)
            db.cart_items consistent

    -- The transaction of `addItem` keeps the carts consistent.
    pub put_in_cart-IsConsistent :
        ((cart : Cart) × (db' : Db) × (put_in_cart env user_id l args db ≡ (ok cart, db'))
          × IsConsistent db'
          × HasCart user_id db')
        ⊎ ((x : Error) × (put_in_cart env user_id l args db ≡ (err x, db)))
    unfolding cart_of_user find
    put_in_cart-IsConsistent = elim put_in_cart-cases [
      | inl (e, k) ↦
          let c = new_cart env user_id l in
          inl (
            c,
            upserted c (c ∷ db.carts),
            k,
            upsert_rows-All env db.listings (c ∷ db.carts) c.id args _ db.cart_items new-Fits
                in_front,
            (c, rw (==-refl user_id) refl),
          )
      | inr (inr (x, k)) ↦ inr (x, k)
      | inr (inl (c, e, s, m, k)) ↦
          let still =
            All-map_impl (Fits db.listings db.carts) (Fits db.listings (bound_carts c))
              (λ i h. Fits-lock_to db.listings db.carts c l i (its_id c e) s m h) db.cart_items
              consistent in
          inl (
            lock_to l c,
            upserted c (bound_carts c),
            k,
            upsert_rows-All env db.listings (bound_carts c) c.id args _ db.cart_items
                (bound-Fits c e) still,
            (lock_to l c, bound_has_cart c e),
          )
    ]

    -- The transaction of `replace` does too.
    pub swap-IsConsistent :
        (db' : Db) × (swap env user_id l args db ≡ (ok tt, db'))
        × IsConsistent db'
        × HasCart user_id db'
    unfolding cart_of_user find
    swap-IsConsistent = elim swap-cases [
      | inl (e, k) ↦
          let c = new_cart env user_id l in
          (
            swapped c (c ∷ db.carts) db.cart_items,
            k,
            All-append_one (Fits db.listings (c ∷ db.carts)) (Fits db.listings (c ∷ db.carts))
                db.cart_items (new_item env c.id args) in_front new-Fits,
            (c, rw (==-refl user_id) refl),
          )
      | inr (c, e, k) ↦ (
        swapped c (bound_carts c) (kept_items c),
        k,
        All-append_one (Fits db.listings (bound_carts c)) (Fits db.listings (bound_carts c))
            (kept_items c) (new_item env c.id args) (kept-Fits c e) (bound-Fits c e),
        (lock_to l c, bound_has_cart c e),
      )
    ]
