-- ===== src/Orders/Checkout/Stock.antt =====
-- What the loop of `createFromCart` (src/modules/orders/orders.service.ts) does to the stock.
use bomboli_server.Prelude.{
  ℕ, ◌+◌, ◌-◌, ◌*◌, ◌≤◌, ◌==◌, ◌≡◌, ◌≢◌, ◌∙◌, refl, sym, subst, true, Option, none, some, List, [],
  ◌∷◌, find, by_id, map_some, is_none, All, sum_by, find-update, find-true, ==→eq, if◌then◌else◌,
  arith, Option-cases, Bool-cases, inl, inr,
}
use bomboli_server.Db.{
  Db, Env, Listing, CartItem, Currency, published, sold_out, ok, Run-cases, listing_key,
  eq_listing_status, eq_currency,
}
use bomboli_server.Orders.Checkout.{
  ItemData, take_stock, item_data, live, reserve_item, reserve_all,
}

abbrev quantity_of : Option Listing → ℕ
quantity_of none = 0
quantity_of (some r) = r.quantity_available

-- The quantity of a listing that the table offers.
unfoldable pub stock : ℕ → List Listing → ℕ
stock l rows = quantity_of (find (by_id l) rows)

-- The quantity of a listing that some cart items ask for.
unfoldable pub ordered : ℕ → List CartItem → ℕ
ordered l = sum_by (λ i. if i.listing_id == l then i.quantity else 0)

-- No listing stands twice: the unique index on (cart, listing).
abbrev pub IsDistinct : List CartItem → Type 0
IsDistinct [] = Unit
IsDistinct (i ∷ items) = All (λ j. j.listing_id ≢ i.listing_id) items × IsDistinct items

-- What a successful round of the loop has checked and written.
pub record Reserved (env : Env) (seller : ℕ) (currency : Currency) (i : CartItem)
    (listing : Listing) (locked : List Listing) (db db' : Db) (d : ItemData) : Type 0 where
  pub found : find (by_id i.listing_id) locked ≡ some listing
  pub is_live : is_none listing.deleted_at ≡ true
  pub is_published : eq_listing_status listing.status published ≡ true
  pub of_seller : (listing.seller_id == seller) ≡ true
  pub in_currency : eq_currency listing.currency currency ≡ true
  pub enough : i.quantity ≤ listing.quantity_available
  pub line : d ≡ item_data listing i
  pub written : db' ≡ record db {
    listings = take_stock env listing (listing.quantity_available - i.quantity) db.listings;
  }

module _ (env : Env) (seller : ℕ) (currency : Currency) (locked : List Listing) where
  reserve_item-Reserved :
      (i : CartItem) (db db' : Db) (d : ItemData)
      → reserve_item env seller currency locked i db ≡ (ok d, db')
      → (listing : Listing) × Reserved env seller currency i listing locked db db' d
  unfolding reserve_item live
  reserve_item-Reserved i db db' d h = elim (Option-cases (find (by_id i.listing_id) locked)) [
    | inl e ↦ ground arith
    | inr (listing, e) ↦ (listing, ground arith)
  ]

-- A lookup after the `UPDATE` of one listing.
pub find-take_stock :
    (env : Env) (listing : Listing) (q l : ℕ) (rows : List Listing)
    → find (by_id l) (take_stock env listing q rows)
      ≡ map_some
          (λ r.
            if r.id == listing.id
            then record r {
              quantity_available = q;
              status = if q == 0 then sold_out else listing.status;
              updated_at = env.now;
            }
            else r)
          (find (by_id l) rows)
unfolding take_stock
find-take_stock env listing q l rows = find-update (by_id l) (by_id listing.id) _ (λ r. refl) rows

pub find_id : (l : ℕ) (rows : List Listing) (r : Listing) → find (by_id l) rows ≡ some r → r.id ≡ l
find_id l rows r h = ==→eq r.id l (find-true (by_id l) rows r h)

stock-found :
    (l : ℕ) (rows : List Listing) (r : Listing)
    → find (by_id l) rows ≡ some r
    → stock l rows ≡ r.quantity_available
unfolding stock
stock-found l rows r h = rw h

stock-take_stock :
    (env : Env) (listing : Listing) (q l : ℕ) (rows : List Listing)
    → find (by_id listing.id) rows ≡ some listing
    → stock l (take_stock env listing q rows) ≡ (if listing.id == l then q else stock l rows)
unfolding stock
stock-take_stock env listing q l rows h = elim (Bool-cases (listing.id == l)) [
  | inl same ↦
      let e = ==→eq listing.id l same in
      rw (same, find-take_stock env listing q l rows)
        (let h' = subst (λ (x : ℕ). find (by_id x) rows ≡ some listing) e h in
          rw h' (ground (arith, same)))
  | inr other ↦
      rw (other, find-take_stock env listing q l rows)
        (elim (Option-cases (find (by_id l) rows)) [
          | inl e ↦ rw e
          | inr (r, e) ↦ rw e (ground (arith, find_id l rows r e))
        ])
]

unfoldable pub line_total : ItemData → ℕ
line_total d = d.price_cents_snapshot * d.quantity

module _ (env : Env) (seller : ℕ) (currency : Currency) (locked : List Listing) where
  -- A successful run over a non-empty list, taken apart.
  pub reserve_all-cons :
      (i : CartItem) (items : List CartItem) (db db' : Db) (out : List ItemData × ℕ)
      → reserve_all env seller currency locked (i ∷ items) db ≡ (ok out, db')
      → (listing : Listing) × (d : ItemData) × (db₁ : Db) × (rest : List ItemData × ℕ) × Reserved
          env seller currency i listing locked db db₁ d
        × (reserve_all env seller currency locked items db₁ ≡ (ok rest, db'))
        × (out ≡ (d ∷ rest.0, line_total d + rest.1))
  unfolding reserve_all line_total
  reserve_all-cons i items db db' out h =
      elim (Run-cases (reserve_item env seller currency locked i db)) [
        | inr (x, db₁, e) ↦ ground arith
        | inl (d, db₁, e) ↦ elim (Run-cases (reserve_all env seller currency locked items db₁)) [
          | inr (x, db₂, k) ↦ ground arith
          | inl (rest, db₂, k) ↦
              let (listing, r) = reserve_item-Reserved env seller currency locked i db db₁ d e in
              (listing, d, db₁, rest, r, ground arith, ground arith)
        ]
      ]

find-take_stock_ne :
    (env : Env) (listing : Listing) (q l : ℕ) (rows : List Listing)
    → l ≢ listing.id
    → find (by_id l) (take_stock env listing q rows) ≡ find (by_id l) rows
find-take_stock_ne env listing q l rows ne =
    rw (find-take_stock env listing q l rows) (elim (Option-cases (find (by_id l) rows)) [
      | inl e ↦ rw e
      | inr (r, e) ↦ rw e (ground (arith, find_id l rows r e, ne))
    ])

-- One round takes the item's quantity from its listing, and nothing from any other.
stock-taken :
    (env : Env) (listing : Listing) (i : CartItem) (l : ℕ) (rows : List Listing)
    → listing.id ≡ i.listing_id
    → find (by_id listing.id) rows ≡ some listing
    → i.quantity ≤ listing.quantity_available
    → stock l (take_stock env listing (listing.quantity_available - i.quantity) rows)
        + ordered l (i ∷ [])
      ≡ stock l rows
unfolding ordered sum_by
stock-taken env listing i l rows same here enough = elim (Bool-cases (listing.id == l)) [
  | inl e ↦
      let at_l =
        subst (λ (x : ℕ). find (by_id x) rows ≡ some listing) (==→eq listing.id l e) here in
      ground (
        arith,
        e,
        same,
        stock-take_stock env listing (listing.quantity_available - i.quantity) l rows here,
        stock-found l rows listing at_l,
      )
  | inr e ↦ ground (
    arith,
    e,
    same,
    stock-take_stock env listing (listing.quantity_available - i.quantity) l rows here,
  )
]

-- The rows of the items' listings are still as they were locked.
abbrev pub Untouched : List Listing → List CartItem → List Listing → Type 0
Untouched locked items rows =
    All (λ i. find (by_id i.listing_id) rows ≡ find (by_id i.listing_id) locked) items

Untouched-take_stock :
    (env : Env) (listing : Listing) (q : ℕ) (locked rows : List Listing) (items : List CartItem)
    → All (λ j. j.listing_id ≢ listing.id) items
    → Untouched locked items rows
    → Untouched locked items (take_stock env listing q rows)
Untouched-take_stock env listing q locked rows [] apart h = tt
Untouched-take_stock env listing q locked rows (i ∷ items) apart h = (
  find-take_stock_ne env listing q i.listing_id rows apart.0 ∙ h.0,
  Untouched-take_stock env listing q locked rows items apart.1 h.1,
)

module _ (env : Env) (seller : ℕ) (currency : Currency) (locked : List Listing) where
  -- After one round the remaining items' listings are untouched, and the stock has gone down.
  Reserved-next :
      (i : CartItem) (items : List CartItem) (listing : Listing) (db db₁ : Db) (d : ItemData)
      → Reserved env seller currency i listing locked db db₁ d
      → IsDistinct (i ∷ items)
      → Untouched locked (i ∷ items) db.listings
      → Untouched locked items db₁.listings
        × ((l : ℕ) → stock l db₁.listings + ordered l (i ∷ []) ≡ stock l db.listings)
  Reserved-next i items listing db db₁ d r distinct h =
      let same = find_id i.listing_id locked listing r.found in
      let here =
        subst (λ (x : ℕ). find (by_id x) db.listings ≡ some listing) (sym same) (h.0 ∙ r.found) in
      rw r.written (
        Untouched-take_stock env listing (listing.quantity_available - i.quantity) locked
            db.listings items
            (subst (λ (x : ℕ). All (λ j. j.listing_id ≢ x) items) (sym same) distinct.0) h.1,
        λ l. stock-taken env listing i l db.listings same here r.enough,
      )

  pub reserve_all-stock :
      (items : List CartItem) (db db' : Db) (out : List ItemData × ℕ)
      → IsDistinct items
      → Untouched locked items db.listings
      → reserve_all env seller currency locked items db ≡ (ok out, db')
      → (l : ℕ) → stock l db'.listings + ordered l items ≡ stock l db.listings
  unfolding ordered sum_by reserve_all
  reserve_all-stock [] db db' out distinct h e l = ground arith
  reserve_all-stock (i ∷ items) db db' out distinct h e l =
      let (listing, d, db₁, rest, r, e', _) =
        reserve_all-cons env seller currency locked i items db db' out e in
      let (h', fell) = Reserved-next i items listing db db₁ d r distinct h in
      omega (arith, fell l, reserve_all-stock items db₁ db' rest distinct.1 h' e' l)
