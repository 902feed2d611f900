-- ===== src/Listings.antt =====
-- A seller's listings: src/modules/listings/listings.service.ts over listings.repository.ts.
pub mod Writes
pub mod Owned
pub mod Read
pub mod Photos
use bomboli_server.Prelude.{
  ⊤, ℕ, ◌==◌, Bool, true, false, not, ◌||◌, String, Option, none, some, List, [], ◌∷◌, find, update,
  by_id, is_some_of, or_default, if◌then◌else◌,
}
use bomboli_server.Db.{
  Db, Env, Point, Listing, ListingStatus, ListingCategory, draft, published, sold_out, archived,
  Currency, Error, Action, pure, gets, or_throw, throw_if, modify, ◌>>=◌, ◌>>◌, eq_listing_status,
  listing_key,
}
use bomboli_server.Users.{get_by_supabase_id_or_fail, find_seller_id_by_user_id}
use bomboli_server.Orders.Checkout.{live}

-- `ALLOWED_TRANSITIONS`
unfoldable pub next_statuses : ListingStatus → List ListingStatus
next_statuses draft = published ∷ archived ∷ []
next_statuses published = sold_out ∷ archived ∷ draft ∷ []
next_statuses sold_out = published ∷ archived ∷ []
next_statuses archived = draft ∷ []

unfoldable pub includes : ListingStatus → List ListingStatus → Bool
includes s [] = false
includes s (t ∷ ts) = eq_listing_status t s || includes s ts

unfoldable pub allowed : ListingStatus → ListingStatus → Bool
unfolding next_statuses includes
allowed from to = includes to (next_statuses from)

pub record CreateListingInput : Type 0 where
  pub title : String
  pub description : String
  pub category : ListingCategory
  pub price_cents : ℕ
  pub currency : Currency
  pub location : Point
  pub quantity_available : ℕ
  pub options : Option String
  pub expires_at : Option ℕ

-- A field left out keeps its column; `some none` writes NULL.
pub record UpdateListingInput : Type 0 where
  pub title : Option String
  pub description : Option String
  pub category : Option ListingCategory
  pub price_cents : Option ℕ
  pub currency : Option Currency
  pub lat : Option ℕ
  pub lng : Option ℕ
  pub quantity_available : Option ℕ
  pub options : Option (Option String)
  pub expires_at : Option (Option ℕ)

-- `ListingsRepository.findById`, which sees no deleted row.
unfoldable pub find_listing : ℕ → Db → Option Listing
unfolding live
find_listing i db = live (find (by_id i) db.listings)

-- `findById` with `includeDeleted`
unfoldable pub find_any_listing : ℕ → Db → Option Listing
find_any_listing i db = find (by_id i) db.listings

abbrev pub update_listings : ℕ → (Listing → Listing) → Db → Db
update_listings i f db = record db { listings = update (by_id i) f db.listings }

unfoldable pub require_seller_id : ℕ → Action ℕ
require_seller_id actor = do
  user ← get_by_supabase_id_or_fail actor
  or_throw Error.forbidden (← gets (find_seller_id_by_user_id user.id))

-- `ensureOwns` and `getOwnedRowOrFail`
unfoldable pub ensure_owns : ℕ → ℕ → Action Listing
unfolding require_seller_id
ensure_owns actor i = do
  seller_id ← require_seller_id actor
  row ← or_throw Error.not_found (← gets (find_any_listing i))
  throw_if (not (row.seller_id == seller_id)) Error.forbidden
  pure row

abbrev pub draft_row : Env → ℕ → CreateListingInput → Listing
draft_row env seller_id input = record {
  id = env.fresh 0;
  seller_id = seller_id;
  title = input.title;
  description = input.description;
  category = input.category;
  price_cents = input.price_cents;
  currency = input.currency;
  location = input.location;
  photos = [];
  options = input.options;
  quantity_available = input.quantity_available;
  status = draft;
  expires_at = input.expires_at;
  published_at = none;
  deleted_at = none;
  created_at = env.now;
  updated_at = env.now;
}

unfoldable pub create_listing : Env → ℕ → CreateListingInput → Action Listing
create_listing env actor input = do
  seller_id ← require_seller_id actor
  modify (λ db. record db { listings = draft_row env seller_id input ∷ db.listings })
  pure (draft_row env seller_id input)

unfoldable pub location_of : UpdateListingInput → Point → Point
location_of input old = elim input.lat [
  | none ↦ old
  | some lat ↦ elim input.lng [ none ↦ old | some lng ↦ record { lat = lat; lng = lng } ]
]

-- The `SET` clauses of `ListingsRepository.update`.
abbrev pub apply_update : Env → UpdateListingInput → Listing → Listing
apply_update env input l = record l {
  title = or_default l.title input.title;
  description = or_default l.description input.description;
  category = or_default l.category input.category;
  price_cents = or_default l.price_cents input.price_cents;
  currency = or_default l.currency input.currency;
  location = location_of input l.location;
  quantity_available = or_default l.quantity_available input.quantity_available;
  options = or_default l.options input.options;
  expires_at = or_default l.expires_at input.expires_at;
  updated_at = env.now;
}

-- The row is written before it is looked up again, and no transaction takes the write back.
unfoldable pub update_listing : Env → ℕ → ℕ → UpdateListingInput → Action Listing
update_listing env actor i input = do
  ensure_owns actor i
  modify (update_listings i (apply_update env input))
  or_throw Error.not_found (← gets (find_listing i))

-- The columns that `setStatus` writes; a date that is left out keeps the old one.
abbrev pub status_row : Env → ListingStatus → Option ℕ → Listing → Listing
status_row env next published_at l = record l {
  status = next;
  published_at = elim published_at [ none ↦ l.published_at | some t ↦ some t ];
  updated_at = env.now;
}

unfoldable pub set_status : Env → ℕ → ListingStatus → Option ℕ → Action Listing
unfolding find_listing
set_status env i next published_at = do
  modify (update_listings i (status_row env next published_at))
  or_throw Error.not_found (← gets (find_listing i))

unfoldable pub move_status : Env → ℕ → ListingStatus → Option ℕ → Listing → Action Listing
unfolding set_status allowed
move_status env i next published_at row =
    if eq_listing_status row.status next
    then pure row
    else (throw_if (not (allowed row.status next)) Error.conflict
        >> set_status env i next published_at)

unfoldable pub transition_status : Env → ℕ → ℕ → ListingStatus → Option ℕ → Action Listing
unfolding move_status
transition_status env actor i next published_at = do
  row ← ensure_owns actor i
  move_status env i next published_at row

unfoldable pub publish : Env → ℕ → ℕ → Action Listing
publish env actor i = transition_status env actor i published (some env.now)

unfoldable pub archive : Env → ℕ → ℕ → Action Listing
archive env actor i = transition_status env actor i archived none

abbrev pub deleted_row : Env → Listing → Listing
deleted_row env l = record l { deleted_at = some env.now; status = archived; updated_at = env.now }

unfoldable pub soft_delete : Env → ℕ → ℕ → Action ⊤
soft_delete env actor i = do ensure_owns actor i; modify (update_listings i (deleted_row env))
