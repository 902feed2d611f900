-- ===== src/Discovery/Feed/Rails.antt =====
-- What the rails of the home feed hold (src/modules/discovery/feed.service.ts).
use bomboli_server.Prelude.{ℕ, ◌+◌, ◌*◌, ◌<◌, ◌≤◌, ◌≡◌, ◌⊎◌, some, or_default, List, map, take}
use bomboli_server.Db.{Db, Point, Listing, seller_key}
use bomboli_server.Listings.Read.{ListingResponse}
use bomboli_server.Listings.Read.Batch.{compose_row}
use bomboli_server.Discovery.{Engine}
use bomboli_server.Discovery.Rows.{IsOpen, InReach, IsSelection}
use bomboli_server.Discovery.Feed.{days, hours, quartile_4, category_prices}

-- A rail: the first listings of a selection, each composed with its seller.
abbrev pub IsRail :
    Db → ℕ → (Listing → Type 0) → (Listing → Listing → Type 0) → List ListingResponse → Type 0
IsRail db limit P Q answer =
    (hits : List Listing) × IsSelection P Q db.listings hits
    × (answer ≡ map (compose_row db) (take limit hits))

-- Published less than 30 days ago, and at most as expensive as a quarter of its category.
abbrev pub IsBargain : ℕ → Db → Listing → Type 0
IsBargain now db l =
    (4 * l.price_cents ≤ quartile_4 (category_prices l.category db))
    × ((t : ℕ) × (l.published_at ≡ some t) × (now < t + days 30))

-- At most two are left, or it expires within 48 hours.
abbrev pub IsEnding : ℕ → Listing → Type 0
IsEnding now l =
    (l.quantity_available ≤ 2) ⊎ ((t : ℕ) × (l.expires_at ≡ some t) × (t < now + hours 48))

-- The one that expires first, a listing without a date counting as one that has a week left, and
-- then the one of which fewer are left.
abbrev pub EndsFirst : ℕ → Listing → Listing → Type 0
EndsFirst now l m =
    let ends = λ (x : Listing). or_default (now + days 7) x.expires_at in
    (ends l < ends m) ⊎ ((ends l ≡ ends m) × (l.quantity_available ≤ m.quantity_available))

module _ (engine : Engine) (now : ℕ) (p : Point) where
  -- Open to the public, within reach of the place, and what a rail asks for besides.
  abbrev pub IsOffered : (Listing → Type 0) → Listing → Type 0
  IsOffered P l = IsOpen now l × InReach engine p l × P l
