-- ===== src/Discovery/Feed.antt =====
-- The rails of the home feed: src/modules/discovery/feed.service.ts and the rail queries of
-- discovery.repository.ts.
pub mod Prices
pub mod Rails
pub mod Nearby
use Prim.Native.Nat.{◌%◌}
use bomboli_server.Prelude.{
  ℕ, zero, suc, ◌+◌, ◌-◌, ◌*◌, ◌/◌, ltb, leb, ◌&&◌, ◌||◌, ◌==◌, Bool, true, false, String, Option,
  none, some, or_default, is_none, List, [], ◌∷◌, ◌++◌, map, length, select, take, find, by_id,
  Column, asc, desc, order_by, if◌then◌else◌,
}
use bomboli_server.Db.{
  Db, Point, User, Seller, Listing, ListingCategory, services, published, eq_listing_status,
  user_key,
}
use bomboli_server.Users.{find_by_supabase_id}
use bomboli_server.Users.RecentlyViewed.{SortedSets, Store, list}
use bomboli_server.Listings.{find_listing}
use bomboli_server.Listings.Read.{ListingResponse, compose_many, is_listed}
use bomboli_server.Discovery.{Engine, eq_category, is_public, is_near}
use bomboli_server.Discovery.Search.{published_desc_nulls_last, ties}

-- `SellerNearbyRow`, and `SellerNearbyDto`, which has the distance in kilometers.
pub record SellerNearby : Type 0 where
  pub seller : Seller
  pub user : User
  pub distance : ℕ

-- `FeedResponseDto`
pub record Feed : Type 0 where
  pub a_decouvrir : List ListingResponse
  pub bons_plans : List ListingResponse
  pub bientot_termine : List ListingResponse
  pub services_pres_de_toi : List ListingResponse
  pub vendeurs_proches : List SellerNearby
  pub vu_recemment : List ListingResponse

-- The n-th of a list, from 0.
unfoldable nth : ℕ → List ℕ → ℕ
nth n [] = 0
nth zero (x ∷ xs) = x
nth (suc n) (x ∷ xs) = nth n xs

-- `percentile_cont(0.25)` of numbers in ascending order, times 4: it interpolates between the two
-- neighbours of the place (n - 1) / 4.
unfoldable pub quartile_4 : List ℕ → ℕ
unfolding nth
quartile_4 xs =
    let place = length xs - 1 in
    let low = nth (place / 4) xs in
    let high = nth (place / 4 + 1) xs in
    if place % 4 == 0 then 4 * low else 4 * low + (place % 4) * (high - low)

-- The prices of `category_quartiles` for one category, expired listings included.
unfoldable pub category_prices : ListingCategory → Db → List ℕ
unfolding is_listed
category_prices c db =
    order_by (asc (λ p. p) ∷ [])
      (map (λ l. l.price_cents) (select (λ l. is_listed l && eq_category l.category c) db.listings))

abbrev pub hours : ℕ → ℕ
hours n = n * 3600000

abbrev pub days : ℕ → ℕ
days n = n * 86400000

-- `"publishedAt" > NOW() - INTERVAL '30 days'`, which a row without the date does not pass.
unfoldable pub is_recent : ℕ → Option ℕ → Bool
is_recent now none = false
is_recent now (some t) = ltb now (t + days 30)

unfoldable pub expires_soon : ℕ → Option ℕ → Bool
expires_soon now none = false
expires_soon now (some t) = ltb t (now + hours 48)

-- What each rail asks for beyond `PUBLIC_FILTER` and the radius of the category.
unfoldable pub is_cheap : ℕ → Db → Listing → Bool
unfolding quartile_4 category_prices is_recent
is_cheap now db l =
    leb (4 * l.price_cents) (quartile_4 (category_prices l.category db))
    && is_recent now l.published_at

unfoldable pub is_almost_gone : ℕ → Listing → Bool
unfolding expires_soon
is_almost_gone now l = leb l.quantity_available 2 || expires_soon now l.expires_at

unfoldable pub is_service : Listing → Bool
is_service l = eq_category l.category services

-- `MIN` of the distances, if there is one.
unfoldable pub minimum : List ℕ → Option ℕ
minimum [] = none
minimum (x ∷ xs) = elim (minimum xs) [ none ↦ some x | some m ↦ some (if leb x m then x else m) ]

module _ (engine : Engine) (query now : ℕ) where
  unfoldable pub a_decouvrir : Point → ℕ → Db → List Listing
  unfolding is_near is_public
  a_decouvrir p limit db = take limit (
      order_by (published_desc_nulls_last (ties engine query))
        (select (λ l. is_public now l && is_near engine p l) db.listings))

  unfoldable pub bons_plans : Point → ℕ → Db → List Listing
  unfolding is_near is_public is_cheap
  bons_plans p limit db = take limit (
      order_by (asc (λ l. l.price_cents) ∷ ties engine query)
        (select (λ l. is_public now l && is_near engine p l && is_cheap now db l) db.listings))

  -- A listing without a date of expiry counts as one that expires in a week.
  unfoldable pub bientot_termine : Point → ℕ → Db → List Listing
  unfolding is_near is_public is_almost_gone
  bientot_termine p limit db = take limit (
      order_by
        (asc (λ l. or_default (now + days 7) l.expires_at)
          ∷ asc (λ l. l.quantity_available)
          ∷ ties engine query)
        (select (λ l. is_public now l && is_near engine p l && is_almost_gone now l) db.listings))

  unfoldable pub services_pres_de_toi : Point → ℕ → Db → List Listing
  unfolding is_near is_public is_service
  services_pres_de_toi p limit db = take limit (
      order_by (asc (λ l. engine.distance l.location p) ∷ ties engine query)
        (select (λ l. is_public now l && is_near engine p l && is_service l) db.listings))

module _ (engine : Engine) where
  -- The listings of a seller that the join finds.
  unfoldable pub offers_near : Point → Db → Seller → List Listing
  unfolding is_listed
  offers_near p db s =
      select (λ l. l.seller_id == s.id && is_listed l && engine.within l.location p 30000)
        db.listings

  unfoldable pub nearby : Point → Seller → Option User → List Listing → List SellerNearby
  unfolding minimum
  nearby p s none offers = []
  nearby p s (some u) offers = elim (minimum (map (λ l. engine.distance l.location p) offers)) [
    | none ↦ []
    | some d ↦ record { seller = s; user = u; distance = d } ∷ []
  ]

  -- `per_seller`
  unfoldable pub sellers_near : Point → Db → List Seller → List SellerNearby
  unfolding offers_near nearby
  sellers_near p db [] = []
  sellers_near p db (s ∷ sellers) =
      nearby p s (find (by_id s.user_id) db.users) (offers_near p db s) ++ sellers_near p db sellers

  unfoldable pub vendeurs_proches : Point → ℕ → Db → List SellerNearby
  unfolding sellers_near
  vendeurs_proches p limit db =
      take limit (order_by (asc (λ r. r.distance) ∷ []) (sellers_near p db db.sellers))

-- The rows that are still there, in the order of the ids.
unfoldable rows_of : List ℕ → Db → List Listing
rows_of [] db = []
rows_of (i ∷ ids) db =
    let rest = rows_of ids db in elim (find_listing i db) [ none ↦ rest | some row ↦ row ∷ rest ]

-- `hydrateRecentlyViewed`
unfoldable hydrate_recently_viewed :
    (redis : SortedSets) → ℕ → ℕ → Db → Store redis → List ListingResponse
unfolding rows_of
hydrate_recently_viewed redis viewer limit db store = elim (find_by_supabase_id viewer db) [
  | none ↦ []
  | some user ↦ compose_many db (rows_of (list redis user.id limit store) db)
]

unfoldable seen_by : (redis : SortedSets) → Option ℕ → ℕ → Db → Store redis → List ListingResponse
unfolding hydrate_recently_viewed
seen_by redis none limit db store = []
seen_by redis (some viewer) limit db store = hydrate_recently_viewed redis viewer limit db store

-- The queries have numbers of their own, the first one being given.
unfoldable pub get_feed :
    (redis : SortedSets) → Engine → ℕ → ℕ → Option Point → Option ℕ → ℕ → Db → Store redis → Feed
unfolding seen_by
get_feed redis engine query now none viewer limit db store = record {
  a_decouvrir = [];
  bons_plans = [];
  bientot_termine = [];
  services_pres_de_toi = [];
  vendeurs_proches = [];
  vu_recemment = seen_by redis viewer limit db store;
}
get_feed redis engine query now (some p) viewer limit db store = record {
  a_decouvrir = compose_many db (a_decouvrir engine query now p limit db);
  bons_plans = compose_many db (bons_plans engine (query + 1) now p limit db);
  bientot_termine = compose_many db (bientot_termine engine (query + 2) now p limit db);
  services_pres_de_toi = compose_many db (services_pres_de_toi engine (query + 3) now p limit db);
  vendeurs_proches = vendeurs_proches engine p limit db;
  vu_recemment = seen_by redis viewer limit db store;
}
