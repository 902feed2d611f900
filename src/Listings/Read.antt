-- ===== src/Listings/Read.antt =====
-- What readers see: `ListingsMapper` (src/modules/listings/listings.mapper.ts) and the reads of
-- listings.service.ts and listings.repository.ts.
pub mod Batch
pub mod Lists
use bomboli_server.Prelude.{
  ℕ, ◌==◌, ◌&&◌, ◌||◌, Bool, true, false, String, Option, none, some, List, [], ◌∷◌, map, is_empty,
  find, select, by_id, is_none, map_some, or_default, if◌then◌else◌, sort_by,
}
use bomboli_server.Db.{
  Db, User, Seller, Listing, published, Error, Result, ok, err, Action, pure, gets, or_throw, ◌>>=◌,
  ◌>>◌, eq_listing_status, seller_key, user_key,
}
use bomboli_server.Users.{find_by_supabase_id}
use bomboli_server.Users.RecentlyViewed.{SortedSets, Store, record_view}
use bomboli_server.Listings.{find_listing, require_seller_id}

-- `ListingSellerSummaryDto`
pub record SellerSummary : Type 0 where
  pub id : ℕ
  pub display_name : Option String
  pub avatar_url : Option String
  pub banner_url : Option String

-- `ListingResponseDto`: the columns of the row, and the seller.
pub record ListingResponse : Type 0 where
  pub listing : Listing
  pub seller : Option SellerSummary

-- `SellerLookupRow`: the seller with the user that its foreign key names.
pub record SellerLookup : Type 0 where
  pub seller : Seller
  pub user : Option User

abbrev pub text_of : {A : Type 0} → (A → Option String) → Option A → Option String
text_of f none = none
text_of f (some a) = f a

unfoldable pub summary_of : SellerLookup → SellerSummary
summary_of s = record {
  id = s.seller.id;
  display_name = text_of (λ u. u.display_name) s.user;
  avatar_url = text_of (λ u. u.avatar_url) s.user;
  banner_url = s.seller.banner_url;
}

unfoldable pub build : Listing → Option SellerLookup → ListingResponse
unfolding summary_of
build row seller = record { listing = row; seller = map_some summary_of seller }

unfoldable pub contains : ℕ → List ℕ → Bool
contains i [] = false
contains i (j ∷ js) = j == i || contains i js

-- `[...new Set(ids)]`
unfoldable pub distinct : List ℕ → List ℕ
unfolding contains
distinct [] = []
distinct (i ∷ js) = let rest = distinct js in if contains i js then rest else i ∷ rest

unfoldable pub lookup_row : Db → Seller → SellerLookup
lookup_row db s = record { seller = s; user = find (by_id s.user_id) db.users }

-- `sellerProfile.findMany({ where: { id: { in: ids } } })`
unfoldable pub find_sellers : List ℕ → Db → List SellerLookup
unfolding contains lookup_row
find_sellers ids db = map (lookup_row db) (select (λ s. contains s.id ids) db.sellers)

-- `new Map(entries).get(id)`: of two entries with one key the later counts.
unfoldable pub map_get : ℕ → List SellerLookup → Option SellerLookup
map_get i [] = none
map_get i (s ∷ rows) = elim (map_get i rows) [
  | some found ↦ some found
  | none ↦ if s.seller.id == i then some s else none
]

unfoldable pub compose_many : Db → List Listing → List ListingResponse
compose_many db rows =
    if is_empty rows
    then []
    else let sellers = find_sellers (distinct (map (λ r. r.seller_id) rows)) db in
      map (λ r. build r (map_get r.seller_id sellers)) rows

abbrev pub first : {A : Type 0} → List A → Option A
first [] = none
first (x ∷ _) = some x

-- `const [composed] = await this.composeMany([row])`
unfoldable pub compose_one : Db → Listing → Option ListingResponse
unfolding compose_many
compose_one db row = first (compose_many db (row ∷ []))

-- `ORDER BY COALESCE("publishedAt", "createdAt") DESC`
unfoldable pub shown_since : Listing → ℕ
shown_since l = or_default l.created_at l.published_at

unfoldable pub is_listed : Listing → Bool
is_listed l = eq_listing_status l.status published && is_none l.deleted_at

unfoldable pub find_published : Db → List Listing
unfolding is_listed shown_since
find_published db = sort_by shown_since (select is_listed db.listings)

unfoldable pub list_rows_by_seller : ℕ → Bool → Db → List Listing
unfolding is_listed shown_since
list_rows_by_seller seller_id only_published db = sort_by shown_since (
    select
      (λ l.
        l.seller_id == seller_id && (if only_published then is_listed l else is_none l.deleted_at))
      db.listings)

unfoldable pub list_published : Db → List ListingResponse
unfolding find_published compose_many
list_published db = compose_many db (find_published db)

unfoldable pub list_by_seller : ℕ → Db → List ListingResponse
unfolding list_rows_by_seller compose_many
list_by_seller seller_id db = compose_many db (list_rows_by_seller seller_id true db)

unfoldable list_mine : ℕ → Action (List ListingResponse)
unfolding list_rows_by_seller compose_many
list_mine actor = do
  seller_id ← require_seller_id actor
  gets (λ db. compose_many db (list_rows_by_seller seller_id false db))

-- `recordViewSafely`: the view is kept for a user who is there; a failure of Redis is logged only.
unfoldable record_view_safely : (redis : SortedSets) → ℕ → ℕ → ℕ → Db → Store redis → Store redis
record_view_safely redis now listing viewer db store = elim (find_by_supabase_id viewer db) [
  | none ↦ store
  | some user ↦ record_view redis now user.id listing store
]

-- The answer to a read of one listing, and the recently viewed sets after it.
unfoldable pub get_by_id :
    (redis : SortedSets)
    → ℕ
    → ℕ
    → Option ℕ
    → Db
    → Store redis
    → Result (Option ListingResponse) × Store redis
unfolding find_listing compose_one record_view_safely
get_by_id redis now i viewer db store = elim (find_listing i db) [
  | none ↦ (err Error.not_found, store)
  | some row ↦ (
    ok (compose_one db row),
    elim viewer [ none ↦ store | some v ↦ record_view_safely redis now i v db store ],
  )
]
