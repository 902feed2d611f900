-- ===== src/Scenarios/Searches.antt =====
-- Searches and rails over the listings of the shop, and its profile.
use text.Mathlib.Text.{◌==◌ as str_eq}
use bomboli_server.Prelude.{
  ◌+◌, ◌<◌, ◌==◌, ◌≡◌, ◌↔◌, leb, refl, true, none, some, List, [], ◌∷◌, map, length, select, take,
  drop, sort_with, by_columns,
}
use bomboli_server.Db.{Point, Listing, seller_key}
use bomboli_server.Listings.Read.Batch.{compose_row}
use bomboli_server.Discovery.{Engine, is_public, category_radius_meters}
use bomboli_server.Discovery.Rows.{IsSelection}
use bomboli_server.Discovery.Search.{SearchInput, SortOption, search, passes, ranked}
use bomboli_server.Discovery.Search.Order.{Chosen, Precedes}
use bomboli_server.Discovery.Search.Found.{IsHit, search-IsHit}
use bomboli_server.Sellers.{UpsertSellerProfileArgs}
use bomboli_server.Scenarios.Data.{db, rice, beans}

-- Everything is a kilometer away.
abbrev engine : Engine
engine = record {
  distance = λ p q. 1000;
  within = λ p q m. leb 1000 m;
  matches = λ q l. str_eq q l.title;
  rank = λ q l. 1;
  tie = λ query l. l.id;
}

abbrev here : Point
here = record { lat = 3; lng = 4 }

abbrev near_here : SearchInput
near_here = record {
  q = none;
  category = none;
  max_distance = some 5000;
  point = some here;
  sort = none;
  offset = 0;
  limit = 1;
}

search-IsHit_example :
    let r = search engine 0 1000 near_here db in
    (hits : List Listing) × (sort : SortOption) × Chosen near_here sort
    × IsSelection (IsHit engine 1000 near_here) (Precedes engine near_here sort) db.listings hits
    × (r.results ≡ map (compose_row db) (take 1 (drop 0 hits)))
    × (r.total ≡ length hits)
    × ((r.has_more ≡ true) ↔ (0 + length r.results < length hits))
search-IsHit_example = search-IsHit engine 0 1000 near_here db (tt, tt)

two_hits : ranked engine 0 1000 near_here db ≡ rice ∷ beans ∷ []
unfolding ranked passes select sort_with by_columns is_public category_radius_meters
two_hits = refl

abbrev new_radius : UpsertSellerProfileArgs
new_radius = record {
  bio = none;
  delivery_radius_km = some 20;
  availability = none;
  languages = none;
  pickup_point = none;
  promo_text = none;
  promo_active = none;
  promo_expires_at = none;
}
