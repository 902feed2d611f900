-- ===== src/Listings/Read/Lists.antt =====
-- Which listings a reader is shown, and in which order: `listPublished`, `listBySeller` and
-- `listMine` of src/modules/listings/listings.service.ts.
use bomboli_server.Prelude.{
  ℕ, ◌==◌, ◌&&◌, ◌≡◌, ◌∙◌, Bool, true, List, [], ◌∷◌, map, select, All, UniqueIds, sum_by, IsSorted,
  sort_by-IsSorted, sort_with-All, select-passes, sum_by-select, sum_by-sort_with, by_columns, desc,
  sort_by, if◌then◌else◌,
}
use bomboli_server.Db.{Db, Listing, seller_key}
use bomboli_server.Listings.Read.{
  ListingResponse, compose_many, shown_since, is_listed, find_published, list_rows_by_seller,
  list_published, list_by_seller,
}
use bomboli_server.Listings.Read.Batch.{compose_row, compose_many-rows}

-- Rows as a reader sees them: each composed with its seller, the latest first, each of them
-- passing a test, and all the rows of the table that pass it, each as often.
record Shows (db : Db) (p : Listing → Bool) (answer : List ListingResponse) : Type 0 where
  pub rows : List Listing
  pub composed : answer ≡ map (compose_row db) rows
  pub latest_first : IsSorted shown_since rows
  pub pass : All (λ l. p l ≡ true) rows
  pub complete :
      (f : Listing → ℕ) → sum_by f rows ≡ sum_by (λ l. if p l then f l else 0) db.listings

sorted-Shows :
    (db : Db) (p : Listing → Bool)
    → UniqueIds db.sellers
    → Shows db p (compose_many db (sort_by shown_since (select p db.listings)))
sorted-Shows db p u =
    let kept = select p db.listings in
    record {
      rows = sort_by shown_since kept;
      composed = (compose_many-rows db (sort_by shown_since kept) u).0;
      latest_first = sort_by-IsSorted shown_since kept;
      pass =
          sort_with-All (by_columns (desc shown_since ∷ [])) (λ (l : Listing). p l ≡ true) kept
            (select-passes p db.listings);
      complete = λ f.
          sum_by-sort_with (by_columns (desc shown_since ∷ [])) f kept
          ∙ sum_by-select f p db.listings;
    }

-- The public lists hold exactly the published rows that are not deleted (of the seller, for
-- `listBySeller`), the latest first, whatever their quantity and their date of expiry; if no two
-- sellers have one id.
list_published-Shows :
    (db : Db) (seller_id : ℕ)
    → UniqueIds db.sellers
    → Shows db is_listed (list_published db)
      × Shows db (λ l. l.seller_id == seller_id && is_listed l) (list_by_seller seller_id db)
unfolding list_published find_published list_by_seller list_rows_by_seller
list_published-Shows db seller_id u =
    (sorted-Shows db is_listed u, sorted-Shows db (λ l. l.seller_id == seller_id && is_listed l) u)
