-- ===== src/Orders/Checkout/Lines.antt =====
-- The lines of an order against the items of the cart, for the loop of `createFromCart`
-- (src/modules/orders/orders.service.ts).
use bomboli_server.Prelude.{
  ℕ, suc, ◌==◌, ◌≡◌, refl, sym, subst, if◌then◌else◌, true, List, [], ◌∷◌, map, All, sum_by, select,
  by_id, find-select, arith, ==→eq,
}
use bomboli_server.Db.{Db, Env, Listing, CartItem, Currency, ok, listing_key}
use bomboli_server.Orders.Access.{compose_item}
use bomboli_server.Orders.Checkout.{
  ItemData, contains_id, lock_listings, item_data, reserve_all, order_items_from,
}
use bomboli_server.Orders.Checkout.Stock.{line_total, reserve_all-cons, Untouched, ordered, find_id}

-- Every item's listing is among those that the query locks.
contains_id-All :
    (whole items : List CartItem)
    → ((l : ℕ) → contains_id l items ≡ true → contains_id l whole ≡ true)
    → All (λ i. contains_id i.listing_id whole ≡ true) items
unfolding contains_id
contains_id-All whole [] inside = tt
contains_id-All whole (i ∷ items) inside = (
  inside i.listing_id (ground arith),
  contains_id-All whole items (λ l h. inside l (ground (arith, h))),
)

Untouched-All :
    (whole items : List CartItem) (rows : List Listing)
    → All (λ i. contains_id i.listing_id whole ≡ true) items
    → Untouched (lock_listings whole rows) items rows
unfolding lock_listings
Untouched-All whole [] rows h = tt
Untouched-All whole (i ∷ items) rows h = (
  sym (
      find-select (by_id i.listing_id) (λ l. contains_id l.id whole)
        (λ r e. subst (λ (x : ℕ). contains_id x whole ≡ true) (sym (==→eq r.id i.listing_id e)) h.0)
        rows),
  Untouched-All whole items rows h.1,
)

pub lock_listings-Untouched :
    (items : List CartItem) (rows : List Listing) → Untouched (lock_listings items rows) items rows
lock_listings-Untouched items rows =
    Untouched-All items items rows (contains_id-All items items (λ l h. h))

-- The lines ask for what the cart's items ask for, listing by listing.
unfoldable pub ordered_lines : ℕ → List ItemData → ℕ
ordered_lines l = sum_by (λ d. if d.listing_id == l then d.quantity else 0)

module _ (env : Env) (seller : ℕ) (currency : Currency) (locked : List Listing) where
  -- The subtotal is the sum of the lines.
  pub reserve_all-subtotal :
      (items : List CartItem) (db db' : Db) (out : List ItemData × ℕ)
      → reserve_all env seller currency locked items db ≡ (ok out, db')
      → out.1 ≡ sum_by line_total out.0
  unfolding reserve_all sum_by
  reserve_all-subtotal [] db db' out e = ground arith
  reserve_all-subtotal (i ∷ items) db db' out e =
      let (listing, d, db₁, rest, r, e', o) =
        reserve_all-cons env seller currency locked i items db db' out e in
      rw o (omega (arith, reserve_all-subtotal items db₁ db' rest e'))

  pub reserve_all-ordered :
      (items : List CartItem) (db db' : Db) (out : List ItemData × ℕ)
      → reserve_all env seller currency locked items db ≡ (ok out, db')
      → (l : ℕ) → ordered_lines l out.0 ≡ ordered l items
  unfolding reserve_all ordered_lines ordered sum_by item_data
  reserve_all-ordered [] db db' out e l = ground arith
  reserve_all-ordered (i ∷ items) db db' out e l =
      let (listing, d, db₁, rest, r, e', o) =
        reserve_all-cons env seller currency locked i items db db' out e in
      let same = find_id i.listing_id locked listing r.found in
      ground (arith, o, r.line, same, reserve_all-ordered items db₁ db' rest e' l)

-- The rows that `createMany` writes belong to the order, and carry the lines.
pub items-order_items_from :
    (env : Env) (order_id n : ℕ) (lines : List ItemData)
    → select (λ i. i.order_id == order_id) (order_items_from env order_id n lines)
      ≡ order_items_from env order_id n lines
unfolding select order_items_from
items-order_items_from env order_id n [] = refl
items-order_items_from env order_id n (d ∷ lines) =
    ground (arith, items-order_items_from env order_id (suc n) lines)

pub line_totals-order_items_from :
    (env : Env) (order_id n : ℕ) (lines : List ItemData)
    → sum_by (λ r. r.line_total_cents) (map compose_item (order_items_from env order_id n lines))
      ≡ sum_by line_total lines
unfolding sum_by order_items_from compose_item line_total
line_totals-order_items_from env order_id n [] = refl
line_totals-order_items_from env order_id n (d ∷ lines) =
    omega (arith, line_totals-order_items_from env order_id (suc n) lines)
