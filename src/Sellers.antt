-- ===== src/Sellers.antt =====
-- Seller profiles: src/modules/sellers/sellers.service.ts and sellers.repository.ts. Their lookups
-- by user are in Users.
pub mod Columns
pub mod Profiles
use bomboli_server.Prelude.{
  ⊤, ℕ, ◌==◌, ◌&&◌, Bool, true, false, String, Option, none, some, List, [], ◌∷◌, or_default,
  map_some, find, select, update, by_id, Column, asc, order_by, if◌then◌else◌,
}
use bomboli_server.Db.{
  Db, Env, Point, User, Seller, Verification, VerificationKind, identity, hygiene_charter, phone,
  address, SellerStats, Error, Action, pure, gets, or_throw, modify, transaction, ◌>>=◌, ◌>>◌,
  seller_key, user_key,
}
use bomboli_server.Users.{get_by_supabase_id_or_fail, seller_of_user}
use bomboli_server.Users.Profile.{is_left_out}
use bomboli_server.Payments.Providers.{filled}

-- `UpsertSellerProfileArgs`: a field left out keeps its column. The availability is its JSON text.
pub record UpsertSellerProfileArgs : Type 0 where
  pub bio : Option (Option String)
  pub delivery_radius_km : Option ℕ
  pub availability : Option (Option String)
  pub languages : Option (List String)
  pub pickup_point : Option (Option Point)
  pub promo_text : Option (Option String)
  pub promo_active : Option Bool
  pub promo_expires_at : Option (Option ℕ)

pub record Promo : Type 0 where
  pub text : String
  pub expires_at : Option ℕ

-- `SellerProfileResponseDto`: the columns of the row but those of the promotion, and what belongs
-- to it.
pub record SellerProfileResponse : Type 0 where
  pub seller : Seller
  pub display_name : Option String
  pub avatar_url : Option String
  pub promo : Option Promo
  pub verifications : List Verification
  pub stats : SellerStats

-- `INSERT INTO seller_profiles`, with the defaults of the schema.
unfoldable pub new_seller : Env → ℕ → Seller
new_seller env user_id = record {
  id = env.fresh 0;
  user_id = user_id;
  bio = none;
  hero_url = none;
  banner_url = none;
  delivery_radius_km = 15;
  availability = none;
  languages = [];
  pickup_point = none;
  promo_text = none;
  promo_active = false;
  promo_expires_at = none;
  created_at = env.now;
  updated_at = env.now;
}

unfoldable pub zero_stats : ℕ → SellerStats
zero_stats seller_id = record {
  seller_id = seller_id;
  avg_rating = 0;
  rating_count = 0;
  distribution = "{}";
  hygiene_bar = 0;
  quality_bar = 0;
  packaging_bar = 0;
  top_sentiment_tags = [];
}

-- `sets.length > 1` does not hold.
unfoldable sets_nothing : UpsertSellerProfileArgs → Bool
sets_nothing args =
    is_left_out args.bio
    && is_left_out args.delivery_radius_km
    && is_left_out args.availability
    && is_left_out args.languages
    && is_left_out args.pickup_point
    && is_left_out args.promo_text
    && is_left_out args.promo_active
    && is_left_out args.promo_expires_at

-- `UPDATE seller_profiles SET …`
unfoldable pub set_columns : Env → UpsertSellerProfileArgs → Seller → Seller
set_columns env args s = record s {
  bio = or_default s.bio args.bio;
  delivery_radius_km = or_default s.delivery_radius_km args.delivery_radius_km;
  availability = or_default s.availability args.availability;
  languages = or_default s.languages args.languages;
  pickup_point = or_default s.pickup_point args.pickup_point;
  promo_text = or_default s.promo_text args.promo_text;
  promo_active = or_default s.promo_active args.promo_active;
  promo_expires_at = or_default s.promo_expires_at args.promo_expires_at;
  updated_at = env.now;
}

unfoldable pub upserted : Env → UpsertSellerProfileArgs → Seller → Seller
unfolding sets_nothing set_columns
upserted env args s = if sets_nothing args then s else set_columns env args s

-- `INSERT INTO seller_stats … ON CONFLICT DO NOTHING`
unfoldable pub with_stats : ℕ → List SellerStats → List SellerStats
with_stats seller_id stats = elim (find (λ t. t.seller_id == seller_id) stats) [
  | none ↦ zero_stats seller_id ∷ stats
  | some _ ↦ stats
]

-- The two `INSERT`s for a user without a profile.
unfoldable pub insert_seller : Env → ℕ → Db → Db
unfolding new_seller with_stats
insert_seller env user_id db = record db {
  sellers = new_seller env user_id ∷ db.sellers;
  seller_stats = with_stats (new_seller env user_id).id db.seller_stats;
}

-- The id of the profile that there is, or of a new row.
unfoldable pub seller_id_or_new : Env → ℕ → Option Seller → Action ℕ
seller_id_or_new env user_id (some s) = pure s.id
seller_id_or_new env user_id none = do
  modify (insert_seller env user_id)
  pure (new_seller env user_id).id

unfoldable pub write_profile : Env → UpsertSellerProfileArgs → ℕ → Action Seller
write_profile env args i = do
  modify (λ db. record db { sellers = update (by_id i) (upserted env args) db.sellers })
  or_throw Error.upstream (← gets (λ db. find (by_id i) db.sellers))

unfoldable pub upsert_found : Env → UpsertSellerProfileArgs → ℕ → Option Seller → Action Seller
upsert_found env args user_id found = seller_id_or_new env user_id found >>= write_profile env args

-- `SellersRepository.upsert`
unfoldable pub upsert : Env → ℕ → UpsertSellerProfileArgs → Action Seller
upsert env user_id args =
    transaction (gets (seller_of_user user_id) >>= upsert_found env args user_id)

-- The place of a kind in its enum, by which the database sorts.
unfoldable kind_rank : VerificationKind → ℕ
kind_rank identity = 0
kind_rank hygiene_charter = 1
kind_rank phone = 2
kind_rank address = 3

unfoldable promo_of : Seller → Option Promo
unfolding filled
promo_of s =
    map_some (λ t. record { text = t; expires_at = s.promo_expires_at }) (filled s.promo_text)

abbrev column_of : {A : Type 0} → (User → Option A) → Option User → Option A
column_of f none = none
column_of f (some u) = f u

unfoldable pub compose_response : Db → Seller → SellerProfileResponse
unfolding promo_of kind_rank
compose_response db row =
    let user = find (by_id row.user_id) db.users in
    record {
      seller = row;
      display_name = column_of (λ u. u.display_name) user;
      avatar_url = column_of (λ u. u.avatar_url) user;
      promo = promo_of row;
      verifications =
          order_by (asc (λ v. kind_rank v.kind) ∷ [])
            (select (λ v. v.seller_id == row.id) db.verifications);
      stats = or_default (zero_stats row.id) (find (λ t. t.seller_id == row.id) db.seller_stats);
    }

unfoldable get_public_profile : ℕ → Action SellerProfileResponse
get_public_profile i = do
  row ← or_throw Error.not_found (← gets (λ db. find (by_id i) db.sellers))
  gets (λ db. compose_response db row)

unfoldable pub get_my_profile : ℕ → Action (Option SellerProfileResponse)
get_my_profile actor = do
  user ← get_by_supabase_id_or_fail actor
  gets (λ db. map_some (compose_response db) (seller_of_user user.id db))

unfoldable pub upsert_my_profile : Env → ℕ → UpsertSellerProfileArgs → Action SellerProfileResponse
upsert_my_profile env actor args = do
  user ← get_by_supabase_id_or_fail actor
  row ← upsert env user.id args
  gets (λ db. compose_response db row)

-- `setBannerUrl` and `setHeroUrl`, which Prisma refuses for a row that is not there.
unfoldable update_seller : ℕ → (Seller → Seller) → Action ⊤
update_seller i f = do
  or_throw Error.missing_record (← gets (λ db. find (by_id i) db.sellers))
  modify (λ db. record db { sellers = update (by_id i) f db.sellers })

unfoldable set_banner_url : Env → ℕ → String → Action ⊤
unfolding update_seller
set_banner_url env i url =
    update_seller i (λ s. record s { banner_url = some url; updated_at = env.now })

unfoldable set_hero_url : Env → ℕ → String → Action ⊤
unfolding update_seller
set_hero_url env i url =
    update_seller i (λ s. record s { hero_url = some url; updated_at = env.now })
