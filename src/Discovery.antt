-- ===== src/Discovery.antt =====
-- Search and the home feed: src/modules/discovery and src/common/geo/category-caps.ts. What
-- PostgreSQL and PostGIS compute on texts and places is a parameter.
pub mod Rows
pub mod Search
pub mod Feed
use bomboli_server.Prelude.{
  ℕ, ◌+◌, ◌*◌, ltb, ◌&&◌, Bool, true, false, String, Option, none, some, is_none, if◌then◌else◌,
}
use bomboli_server.Db.{
  Point, Listing, ListingCategory, cosmetique, textile, seconde_main, agricole, services, autres,
  published, eq_listing_status,
}

-- `CATEGORY_MAX_KM` and `maxRadiusKm`
unfoldable pub max_radius_km : ListingCategory → ℕ
max_radius_km cosmetique = 25
max_radius_km textile = 25
max_radius_km seconde_main = 15
max_radius_km agricole = 30
max_radius_km services = 20
max_radius_km autres = 25

-- `categoryRadiusMetersSql`
unfoldable pub category_radius_meters : ListingCategory → ℕ
unfolding max_radius_km
category_radius_meters c = max_radius_km c * 1000

abbrev pub eq_category : ListingCategory → ListingCategory → Bool
eq_category cosmetique cosmetique = true
eq_category textile textile = true
eq_category seconde_main seconde_main = true
eq_category agricole agricole = true
eq_category services services = true
eq_category autres autres = true
eq_category _ _ = false

-- The database's functions on places and texts. Distances and ranks are floats that are never
-- negative, so their bit patterns compare as they do. `tie` is the order in which a query, by its
-- number among those that the server sends, happens to give rows that its `ORDER BY` does not tell
-- apart: another query may give them in another order.
pub record Engine : Type 0 where
  -- `ST_Distance`, and `ST_DWithin` for a number of meters
  pub distance : Point → Point → ℕ
  pub within : Point → Point → ℕ → Bool
  -- `"searchVector" @@ websearch_to_tsquery('french', q) OR similarity(title, q) > 0.25`
  pub matches : String → Listing → Bool
  -- `ts_rank_cd("searchVector", websearch_to_tsquery('french', q))`
  pub rank : String → Listing → ℕ
  pub tie : ℕ → Listing → ℕ

-- `PUBLIC_FILTER`, at the time of the query.
unfoldable is_alive : ℕ → Option ℕ → Bool
is_alive now none = true
is_alive now (some t) = ltb now t

unfoldable pub is_public : ℕ → Listing → Bool
unfolding is_alive
is_public now l =
    eq_listing_status l.status published && is_none l.deleted_at && is_alive now l.expires_at

-- `ST_DWithin(l.location, point, <the radius of the category>)`
unfoldable pub is_near : Engine → Point → Listing → Bool
unfolding category_radius_meters
is_near engine p l = engine.within l.location p (category_radius_meters l.category)
