-- ===== src/Cart/Requests.antt =====
-- The requests of src/modules/cart/cart.service.ts, whole.
use bomboli_server.Prelude.{
  ℕ, ◌==◌, ◌≡◌, ◌∙◌, inl, inr, refl, none, some, ◌∷◌, is_empty, select, find, update, delete, by_id,
  find-update, All, All-map_impl, arith, Option-cases, Bool-cases,
}
use bomboli_server.Db.{
  Db, Env, Listing, Cart, ok, Action, Run-cases, listing_key, cart_key, cart_item_key,
}
use bomboli_server.Users.{get_by_supabase_id_or_fail}
use bomboli_server.Orders.Checkout.{cart_items_of, live}
use bomboli_server.Cart.{
  ItemArgs, cart_of_user, load_cart, insert_cart, require_purchasable_listing, reject_self_purchase,
  require_owned_item, add_item, update_item, take_out, remove_item, replace, check_purchase,
  check_item, set_quantity, unlock, get_mine,
}
use bomboli_server.Cart.Response.{CartResponse}
use bomboli_server.Cart.Fits.{
  Fits, IsConsistent, All-delete, All-update_impl, All-select_none, Fits-insert_cart,
  Fits-update_other,
}
use bomboli_server.Cart.Consistent.{
  IsReady, HasCart, put_in_cart-IsConsistent, swap-IsConsistent, Fits-set_quantity,
}

-- A request of a user.
pub data Request : Type 0 where
  reads : Request
  adds : ItemArgs → Request
  updates : (item_id quantity : ℕ) → Request
  removes : (item_id : ℕ) → Request
  replaces : ItemArgs → Request

unfoldable pub respond : Env → ℕ → Request → Action CartResponse
respond env actor Request.reads = get_mine env actor
respond env actor (Request.adds args) = add_item env actor args
respond env actor (Request.updates i quantity) = update_item env actor i quantity
respond env actor (Request.removes i) = remove_item env actor i
respond env actor (Request.replaces args) = replace env actor args

check_purchase-pure : (actor i : ℕ) (db : Db) → (check_purchase actor i db).1 ≡ db
unfolding check_purchase get_by_supabase_id_or_fail require_purchasable_listing reject_self_purchase
check_purchase-pure actor i db = ground arith

check_purchase-found :
    (actor i : ℕ) (db db₁ : Db) (x : ℕ × Listing)
    → check_purchase actor i db ≡ (ok x, db₁)
    → find (by_id i) db.listings ≡ some x.1
unfolding check_purchase get_by_supabase_id_or_fail require_purchasable_listing reject_self_purchase
    live
check_purchase-found actor i db db₁ x h = elim (Option-cases (find (by_id i) db.listings)) [
  | inl e ↦ absurd (ground (arith, e))
  | inr (l, e) ↦ ground (arith, e)
]

check_item-pure : (actor i : ℕ) (db : Db) → (check_item actor i db).1 ≡ db
unfolding check_item get_by_supabase_id_or_fail require_owned_item
check_item-pure actor i db = ground arith

user-pure : (actor : ℕ) (db : Db) → (get_by_supabase_id_or_fail actor db).1 ≡ db
unfolding get_by_supabase_id_or_fail
user-pure actor db = ground arith

-- Reading a cart, which may create it.
load_cart-IsConsistent :
    (env : Env) (user_id : ℕ) (db : Db)
    → IsConsistent db
    → (cart_of_user user_id db ≡ none → find (by_id (env.fresh 0)) db.carts ≡ none)
    → IsConsistent (load_cart env user_id db).1
unfolding load_cart insert_cart
load_cart-IsConsistent env user_id db h new = elim (Option-cases (cart_of_user user_id db)) [
  | inl e ↦
      let c : Cart = record {
        id = env.fresh 0;
        user_id = user_id;
        seller_id = none;
        currency = none;
      } in
      let ends : (load_cart env user_id db).1 ≡ record db { carts = c ∷ db.carts } =
        ground (arith, e) in
      rw ends (
        All-map_impl (Fits db.listings db.carts) (Fits db.listings (c ∷ db.carts))
          (λ i k. Fits-insert_cart db.listings db.carts c i (new e) k) db.cart_items h)
  | inr (c, e) ↦ let ends : (load_cart env user_id db).1 ≡ db = ground (arith, e) in rw ends h
]

has_no_none : (user_id : ℕ) (db : Db) → HasCart user_id db → cart_of_user user_id db ≡ none → ⊥
has_no_none user_id db (c, e) n = ground (arith, e, n)

module _ (env : Env) (actor : ℕ) (db : Db) (consistent : IsConsistent db)
    (ready : IsReady env db) where
  add_item-IsConsistent : (args : ItemArgs) → IsConsistent (add_item env actor args db).1
  unfolding add_item
  add_item-IsConsistent args = elim (Run-cases (check_purchase actor args.listing_id db)) [
    | inr (e, db₁, k) ↦
        let ends : (add_item env actor args db).1 ≡ db =
          ground (arith, k, check_purchase-pure actor args.listing_id db) in
        rw ends consistent
    | inl (x, db₁, k) ↦
        let still : db₁ ≡ db = ground (arith, k, check_purchase-pure actor args.listing_id db) in
        elim (put_in_cart-IsConsistent env x.0 x.1 args db consistent ready
          (check_purchase-found actor args.listing_id db db₁ x k)) [
            | inr (e, p) ↦
                let ends : (add_item env actor args db).1 ≡ db = ground (arith, k, still, p) in
                rw ends consistent
            | inl (cart, db', p, c, has) ↦
                let ends : (add_item env actor args db).1 ≡ (load_cart env x.0 db').1 =
                  ground (arith, k, still, p) in
                rw ends
                  (load_cart-IsConsistent env x.0 db' c (λ n. absurd (has_no_none x.0 db' has n)))
          ]
  ]

  replace-IsConsistent : (args : ItemArgs) → IsConsistent (replace env actor args db).1
  unfolding replace
  replace-IsConsistent args = elim (Run-cases (check_purchase actor args.listing_id db)) [
    | inr (e, db₁, k) ↦
        let ends : (replace env actor args db).1 ≡ db =
          ground (arith, k, check_purchase-pure actor args.listing_id db) in
        rw ends consistent
    | inl (x, db₁, k) ↦
        let still : db₁ ≡ db = ground (arith, k, check_purchase-pure actor args.listing_id db) in
        let (db', p, c, has) =
          swap-IsConsistent env x.0 x.1 args db consistent ready
            (check_purchase-found actor args.listing_id db db₁ x k) in
        let ends : (replace env actor args db).1 ≡ (load_cart env x.0 db').1 =
          ground (arith, k, still, p) in
        rw ends (load_cart-IsConsistent env x.0 db' c (λ n. absurd (has_no_none x.0 db' has n)))
  ]

  set_quantity-IsConsistent :
      (i quantity : ℕ)
      → IsConsistent
          (record db { cart_items = update (by_id i) (set_quantity quantity) db.cart_items })
  set_quantity-IsConsistent i quantity =
      let P = Fits db.listings db.carts in
      All-update_impl P P (by_id i) (set_quantity quantity) (λ x h. h)
        (λ x h. Fits-set_quantity db.listings db.carts quantity x h) db.cart_items consistent

  -- What is left fits, and the id for a new cart is still not in use.
  take_out-IsConsistent :
      (i cart_id : ℕ)
      → let db' = (take_out i cart_id db).1 in
        IsConsistent db'
        × (find (by_id (env.fresh 0)) db'.carts ≡ none)
        × ((take_out i cart_id db).0 ≡ ok tt)
  unfolding take_out cart_items_of
  take_out-IsConsistent i cart_id =
      let P = Fits db.listings db.carts in
      let rows = delete (by_id i) db.cart_items in
      let left : All P rows = All-delete P P (by_id i) (λ x e h. h) db.cart_items consistent in
      elim (Bool-cases (is_empty (select (λ x. x.cart_id == cart_id) rows))) [
        | inr more ↦
            let ends : (take_out i cart_id db).1 ≡ record db { cart_items = rows } =
              ground (arith, more) in
            rw ends (left, ready.new_id, ground arith)
        | inl last ↦
            let carts = update (by_id cart_id) unlock db.carts in
            let ends : (take_out i cart_id db).1 ≡ record db { cart_items = rows; carts = carts } =
              ground (arith, last) in
            rw ends (
              All-select_none P (Fits db.listings carts) (λ x. x.cart_id == cart_id)
                  (λ x other h.
                    Fits-update_other db.listings db.carts cart_id unlock x (λ c. refl) other h)
                  rows last left,
              find-update (by_id (env.fresh 0)) (by_id cart_id) unlock (λ c. refl) db.carts
                  ∙ rw ready.new_id refl,
              ground arith,
            )
      ]

  update_item-IsConsistent : (i quantity : ℕ) → IsConsistent (update_item env actor i quantity db).1
  unfolding update_item
  update_item-IsConsistent i quantity = elim (Run-cases (check_item actor i db)) [
    | inr (e, db₁, k) ↦
        let ends : (update_item env actor i quantity db).1 ≡ db =
          ground (arith, k, check_item-pure actor i db) in
        rw ends consistent
    | inl (x, db₁, k) ↦
        let db' : Db = record db {
          cart_items = update (by_id i) (set_quantity quantity) db.cart_items;
        } in
        let ends : (update_item env actor i quantity db).1 ≡ (load_cart env x.0 db').1 =
          ground (arith, k, check_item-pure actor i db) in
        rw ends (
          load_cart-IsConsistent env x.0 db' (set_quantity-IsConsistent i quantity)
            (λ n. ready.new_id))
  ]

  remove_item-IsConsistent : (i : ℕ) → IsConsistent (remove_item env actor i db).1
  unfolding remove_item
  remove_item-IsConsistent i = elim (Run-cases (check_item actor i db)) [
    | inr (e, db₁, k) ↦
        let ends : (remove_item env actor i db).1 ≡ db =
          ground (arith, k, check_item-pure actor i db) in
        rw ends consistent
    | inl (x, db₁, k) ↦
        let (left, new_id, succeeds) = take_out-IsConsistent i x.1.cart_id in
        let db' = (take_out i x.1.cart_id db).1 in
        let ends : (remove_item env actor i db).1 ≡ (load_cart env x.0 db').1 =
          ground (arith, k, check_item-pure actor i db, succeeds) in
        rw ends (load_cart-IsConsistent env x.0 db' left (λ n. new_id))
  ]

  get_mine-IsConsistent : IsConsistent (get_mine env actor db).1
  unfolding get_mine
  get_mine-IsConsistent = elim (Run-cases (get_by_supabase_id_or_fail actor db)) [
    | inr (e, db₁, k) ↦
        let ends : (get_mine env actor db).1 ≡ db = ground (arith, k, user-pure actor db) in
        rw ends consistent
    | inl (u, db₁, k) ↦
        let ends : (get_mine env actor db).1 ≡ (load_cart env u.id db).1 =
          ground (arith, k, user-pure actor db) in
        rw ends (load_cart-IsConsistent env u.id db consistent (λ n. ready.new_id))
  ]

-- Whatever a user asks of the cart, allowed or not, every item still stands in a cart that is bound
-- to the seller and the currency of the item's listing: a cart holds the goods of one seller, in
-- one currency; if that held before, no two carts have one id, and the new id is not in use.
pub respond-IsConsistent :
    (env : Env) (actor : ℕ) (request : Request) (db : Db)
    → IsConsistent db
    → IsReady env db
    → IsConsistent (respond env actor request db).1
unfolding respond
respond-IsConsistent env actor Request.reads db c r = get_mine-IsConsistent env actor db c r
respond-IsConsistent env actor (Request.adds args) db c r =
    add_item-IsConsistent env actor db c r args
respond-IsConsistent env actor (Request.updates i quantity) db c r =
    update_item-IsConsistent env actor db c r i quantity
respond-IsConsistent env actor (Request.removes i) db c r =
    remove_item-IsConsistent env actor db c r i
respond-IsConsistent env actor (Request.replaces args) db c r =
    replace-IsConsistent env actor db c r args
