-- ===== src/Sellers/Columns.antt =====
-- The columns of a profile after `upsertMyProfile` of src/modules/sellers/sellers.service.ts.
use bomboli_server.Prelude.{
  ℕ, ◌≡◌, false, Option, none, some, before, or_default, [], arith, Option-cases,
}
use bomboli_server.Db.{Env, Seller}
use bomboli_server.Users.Profile.{is_left_out}
use bomboli_server.Sellers.{UpsertSellerProfileArgs, new_seller, set_columns, upserted}

module _ (env : Env) (args : UpsertSellerProfileArgs) where
  -- The row of a user who had one or none.
  unfoldable pub profile_of : ℕ → Option Seller → Seller
  profile_of user_id none = upserted env args (new_seller env user_id)
  profile_of user_id (some s) = upserted env args s

  pub upserted-id : (s : Seller) → (upserted env args s).id ≡ s.id
  unfolding upserted set_columns
  upserted-id s = ground arith

  pub upserted-user : (s : Seller) → (upserted env args s).user_id ≡ s.user_id
  unfolding upserted set_columns
  upserted-user s = ground arith

  upserted-bio : (s : Seller) → (upserted env args s).bio ≡ or_default s.bio args.bio
  unfolding upserted set_columns is_left_out
  upserted-bio s = ground (arith, Option-cases args.bio)

  upserted-delivery_radius_km :
      (s : Seller)
      → (upserted env args s).delivery_radius_km
        ≡ or_default s.delivery_radius_km args.delivery_radius_km
  unfolding upserted set_columns is_left_out
  upserted-delivery_radius_km s = ground (arith, Option-cases args.delivery_radius_km)

  upserted-availability :
      (s : Seller)
      → (upserted env args s).availability ≡ or_default s.availability args.availability
  unfolding upserted set_columns is_left_out
  upserted-availability s = ground (arith, Option-cases args.availability)

  upserted-languages :
      (s : Seller) → (upserted env args s).languages ≡ or_default s.languages args.languages
  unfolding upserted set_columns is_left_out
  upserted-languages s = ground (arith, Option-cases args.languages)

  upserted-pickup_point :
      (s : Seller)
      → (upserted env args s).pickup_point ≡ or_default s.pickup_point args.pickup_point
  unfolding upserted set_columns is_left_out
  upserted-pickup_point s = ground (arith, Option-cases args.pickup_point)

  upserted-promo_text :
      (s : Seller) → (upserted env args s).promo_text ≡ or_default s.promo_text args.promo_text
  unfolding upserted set_columns is_left_out
  upserted-promo_text s = ground (arith, Option-cases args.promo_text)

  upserted-promo_active :
      (s : Seller)
      → (upserted env args s).promo_active ≡ or_default s.promo_active args.promo_active
  unfolding upserted set_columns is_left_out
  upserted-promo_active s = ground (arith, Option-cases args.promo_active)

  upserted-promo_expires_at :
      (s : Seller)
      → (upserted env args s).promo_expires_at ≡ or_default s.promo_expires_at args.promo_expires_at
  unfolding upserted set_columns is_left_out
  upserted-promo_expires_at s = ground (arith, Option-cases args.promo_expires_at)

  upserted-hero_url : (s : Seller) → (upserted env args s).hero_url ≡ s.hero_url
  unfolding upserted set_columns
  upserted-hero_url s = ground arith

  upserted-banner_url : (s : Seller) → (upserted env args s).banner_url ≡ s.banner_url
  unfolding upserted set_columns
  upserted-banner_url s = ground arith

  -- The profile of a user who had one or none: a column that the request gives holds what it gives,
  -- and any other what it held, or the default of a new profile; the id, the user and the two
  -- pictures stay, or are those of a new profile.
  pub record IsProfile (user_id : ℕ) (found : Option Seller) (row : Seller) : Type 0 where
    pub its_id : row.id ≡ before (λ s. s.id) (env.fresh 0) found
    pub its_user_id : row.user_id ≡ before (λ s. s.user_id) user_id found
    pub its_hero_url : row.hero_url ≡ before (λ s. s.hero_url) none found
    pub its_banner_url : row.banner_url ≡ before (λ s. s.banner_url) none found
    pub its_bio : row.bio ≡ or_default (before (λ s. s.bio) none found) args.bio
    pub its_delivery_radius_km :
        row.delivery_radius_km
        ≡ or_default (before (λ s. s.delivery_radius_km) 15 found) args.delivery_radius_km
    pub its_availability :
        row.availability ≡ or_default (before (λ s. s.availability) none found) args.availability
    pub its_languages :
        row.languages ≡ or_default (before (λ s. s.languages) [] found) args.languages
    pub its_pickup_point :
        row.pickup_point ≡ or_default (before (λ s. s.pickup_point) none found) args.pickup_point
    pub its_promo_text :
        row.promo_text ≡ or_default (before (λ s. s.promo_text) none found) args.promo_text
    pub its_promo_active :
        row.promo_active ≡ or_default (before (λ s. s.promo_active) false found) args.promo_active
    pub its_promo_expires_at :
        row.promo_expires_at
        ≡ or_default (before (λ s. s.promo_expires_at) none found) args.promo_expires_at

  pub profile_of-IsProfile :
      (user_id : ℕ) (found : Option Seller) → IsProfile user_id found (profile_of user_id found)
  unfolding profile_of new_seller
  profile_of-IsProfile user_id none = record {
    its_id = upserted-id (new_seller env user_id);
    its_user_id = upserted-user (new_seller env user_id);
    its_hero_url = upserted-hero_url (new_seller env user_id);
    its_banner_url = upserted-banner_url (new_seller env user_id);
    its_bio = upserted-bio (new_seller env user_id);
    its_delivery_radius_km = upserted-delivery_radius_km (new_seller env user_id);
    its_availability = upserted-availability (new_seller env user_id);
    its_languages = upserted-languages (new_seller env user_id);
    its_pickup_point = upserted-pickup_point (new_seller env user_id);
    its_promo_text = upserted-promo_text (new_seller env user_id);
    its_promo_active = upserted-promo_active (new_seller env user_id);
    its_promo_expires_at = upserted-promo_expires_at (new_seller env user_id);
  }
  profile_of-IsProfile user_id (some s) = record {
    its_id = upserted-id (s);
    its_user_id = upserted-user (s);
    its_hero_url = upserted-hero_url (s);
    its_banner_url = upserted-banner_url (s);
    its_bio = upserted-bio (s);
    its_delivery_radius_km = upserted-delivery_radius_km (s);
    its_availability = upserted-availability (s);
    its_languages = upserted-languages (s);
    its_pickup_point = upserted-pickup_point (s);
    its_promo_text = upserted-promo_text (s);
    its_promo_active = upserted-promo_active (s);
    its_promo_expires_at = upserted-promo_expires_at (s);
  }
