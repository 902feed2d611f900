-- ===== src/Orders/Cancel/Restock.antt =====
-- What the restocking of `cancelInternal` (src/modules/orders/orders.service.ts) does to the stock.
use bomboli_server.Prelude.{
  ℕ, ◌+◌, ◌==◌, ◌≡◌, ◌∙◌, refl, Bool, false, Option, none, some, List, [], ◌∷◌, find, update, by_id,
  map_some, is_none, sum_by, find-update, find-id, arith, if◌then◌else◌, Option-cases, inl, inr,
}
use bomboli_server.Db.{Env, Listing, OrderItem, listing_key}
use bomboli_server.Orders.Cancel.{restock_row, is_live, restock}
use bomboli_server.Orders.Checkout.Stock.{stock}

-- The quantity of a listing that some order items hold.
unfoldable pub held : ℕ → List OrderItem → ℕ
held l = sum_by (λ i. if i.listing_id == l then i.quantity else 0)

abbrev pub kept : Option Listing → Bool
kept none = false
kept (some r) = is_none r.deleted_at

-- The listing is there and not deleted.
unfoldable pub is_listed : ℕ → List Listing → Bool
is_listed l rows = kept (find (by_id l) rows)

find-restocked :
    (env : Env) (i q l : ℕ) (rows : List Listing)
    → find (by_id l) (update (is_live i) (restock_row env q) rows)
      ≡ map_some (λ r. if is_live i r then restock_row env q r else r) (find (by_id l) rows)
unfolding restock_row
find-restocked env i q l rows =
    find-update (by_id l) (is_live i) (restock_row env q) (λ r. refl) rows

-- One `UPDATE` gives the quantity back to its listing, if that is listed, and to no other.
restocked :
    (env : Env) (i q l : ℕ) (rows : List Listing)
    → let rows' = update (is_live i) (restock_row env q) rows in
      (is_listed l rows' ≡ is_listed l rows)
      × (stock l rows' ≡ stock l rows + (if is_listed l rows then (if i == l then q else 0) else 0))
unfolding stock is_listed restock_row
restocked env i q l rows = elim (Option-cases (find (by_id l) rows)) [
  | inl e ↦ ground (arith, e, find-restocked env i q l rows)
  | inr (r, e) ↦ ground (arith, e, find-restocked env i q l rows, find-id l rows r e)
]

-- Restocking gives each listed listing back what the items hold of it, and a deleted or missing
-- one nothing.
pub stock-restock :
    (env : Env) (items : List OrderItem) (l : ℕ) (rows : List Listing)
    → stock l (restock env items rows)
      ≡ stock l rows + (if is_listed l rows then held l items else 0)
unfolding restock held sum_by
stock-restock env [] l rows = ground arith
stock-restock env (i ∷ items) l rows =
    let rows' = update (is_live i.listing_id) (restock_row env i.quantity) rows in
    ground (arith, restocked env i.listing_id i.quantity l rows, stock-restock env items l rows')

-- Restocking deletes no listing and brings none back.
pub is_listed-restock :
    (env : Env) (items : List OrderItem) (l : ℕ) (rows : List Listing)
    → is_listed l (restock env items rows) ≡ is_listed l rows
unfolding restock
is_listed-restock env [] l rows = refl
is_listed-restock env (i ∷ items) l rows =
    is_listed-restock env items l (update (is_live i.listing_id) (restock_row env i.quantity) rows)
    ∙ (restocked env i.listing_id i.quantity l rows).0
