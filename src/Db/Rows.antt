-- ===== src/Db/Rows.antt =====
-- The rows of the tables (prisma/schema.prisma). A date is its number of milliseconds, a JSON
-- column its text, a coordinate the bit pattern of its double; these three are only copied and
-- compared. Ids are only compared, so they are numbers.
use bomboli_server.Prelude.{ℕ, Bool, String, Option, List, Keyed}
use bomboli_server.Db.Types.{
  OrderStatus, ListingStatus, ListingCategory, PaymentStatus, ProviderKind, FulfillmentType,
  VehicleType, Currency, Platform, VerificationKind, VerificationStatus,
}

pub record Point : Type 0 where
  pub lat : ℕ
  pub lng : ℕ

pub record User : Type 0 where
  pub id : ℕ
  pub supabase_id : ℕ
  pub email : String
  pub phone : Option String
  pub is_admin : Bool
  pub display_name : Option String
  pub avatar_url : Option String
  pub preferred_language : String
  pub theme_pref : String
  pub default_location : Option Point
  pub email_verified_at : Option ℕ
  pub phone_verified_at : Option ℕ
  pub last_sign_in_at : Option ℕ
  pub created_at : ℕ
  pub updated_at : ℕ

pub record Device : Type 0 where
  pub id : ℕ
  pub user_id : ℕ
  pub platform : Platform
  pub push_token : String
  pub last_seen_at : ℕ
  pub created_at : ℕ

pub record Seller : Type 0 where
  pub id : ℕ
  pub user_id : ℕ
  pub bio : Option String
  pub hero_url : Option String
  pub banner_url : Option String
  pub delivery_radius_km : ℕ
  pub availability : Option String
  pub languages : List String
  pub pickup_point : Option Point
  pub promo_text : Option String
  pub promo_active : Bool
  pub promo_expires_at : Option ℕ
  pub created_at : ℕ
  pub updated_at : ℕ

pub record Verification : Type 0 where
  pub seller_id : ℕ
  pub kind : VerificationKind
  pub status : VerificationStatus
  pub verified_at : Option ℕ

-- The ratings and bars are floats, of which only the bit patterns are copied.
pub record SellerStats : Type 0 where
  pub seller_id : ℕ
  pub avg_rating : ℕ
  pub rating_count : ℕ
  pub distribution : String
  pub hygiene_bar : ℕ
  pub quality_bar : ℕ
  pub packaging_bar : ℕ
  pub top_sentiment_tags : List String

-- An entry of the JSON array `listing.photos` (`ListingPhotoDto`).
pub record Photo : Type 0 where
  pub id : ℕ
  pub url : String
  pub sm : Option String
  pub md : Option String
  pub lg : Option String
  pub alt : Option String
  pub uploaded_at : Option ℕ
  pub ready : Bool

pub record Listing : Type 0 where
  pub id : ℕ
  pub seller_id : ℕ
  pub title : String
  pub description : String
  pub category : ListingCategory
  pub price_cents : ℕ
  pub currency : Currency
  pub location : Point
  pub photos : List Photo
  pub options : Option String
  pub quantity_available : ℕ
  pub status : ListingStatus
  pub expires_at : Option ℕ
  pub published_at : Option ℕ
  pub deleted_at : Option ℕ
  pub created_at : ℕ
  pub updated_at : ℕ

pub record Cart : Type 0 where
  pub id : ℕ
  pub user_id : ℕ
  pub seller_id : Option ℕ
  pub currency : Option Currency

pub record CartItem : Type 0 where
  pub id : ℕ
  pub cart_id : ℕ
  pub listing_id : ℕ
  pub quantity : ℕ
  pub options : Option String

pub record AddressSnapshot : Type 0 where
  pub label : String
  pub formatted : String
  pub point : Point
  pub gate_code : Option String
  pub floor : Option String
  pub delivery_instructions : Option String

pub record Order : Type 0 where
  pub id : ℕ
  pub buyer_id : ℕ
  pub seller_id : ℕ
  pub status : OrderStatus
  pub fulfillment_type : FulfillmentType
  pub address_snapshot : Option AddressSnapshot
  pub subtotal_cents : ℕ
  pub discount_cents : ℕ
  pub delivery_fee_cents : ℕ
  pub total_cents : ℕ
  pub currency : Currency
  pub eta_at : Option ℕ
  pub deliverer_id : Option ℕ
  pub payment_id : Option ℕ
  pub created_at : ℕ
  pub updated_at : ℕ

pub record OrderItem : Type 0 where
  pub id : ℕ
  pub order_id : ℕ
  pub listing_id : ℕ
  pub title_snapshot : String
  pub price_cents_snapshot : ℕ
  pub photo_url_snapshot : Option String
  pub quantity : ℕ
  pub options : Option String

pub record Payment : Type 0 where
  pub id : ℕ
  pub order_id : ℕ
  pub provider : ProviderKind
  pub provider_ref : Option String
  pub amount_cents : ℕ
  pub currency : Currency
  pub status : PaymentStatus
  pub captured_at : Option ℕ
  pub failure_reason : Option String
  pub metadata : Option String

pub data AttemptKind : Type 0 where
  create_intent confirm webhook refund capture : AttemptKind

pub record PaymentAttempt : Type 0 where
  pub payment_id : ℕ
  pub kind : AttemptKind
  pub idempotency_key : Option String
  pub provider : ProviderKind
  -- The amount in the column `request`, which is a refund's; the other texts are left out.
  pub amount_cents : Option ℕ
  pub status : PaymentStatus

pub record Deliverer : Type 0 where
  pub id : ℕ
  pub user_id : ℕ
  pub vehicle_type : VehicleType
  pub phone_masked : List ℕ
  pub available : Bool
  pub current_location : Option Point

pub record Address : Type 0 where
  pub id : ℕ
  pub user_id : ℕ
  pub label : String
  pub formatted : String
  pub location : Point
  pub gate_code : Option String
  pub floor : Option String
  pub delivery_instructions : Option String
  pub is_default : Bool
  pub created_at : ℕ

instance abbrev pub user_key : Keyed User
user_key = record { id_of = λ r. r.id }

instance abbrev pub device_key : Keyed Device
device_key = record { id_of = λ r. r.id }

instance abbrev pub photo_key : Keyed Photo
photo_key = record { id_of = λ r. r.id }

instance abbrev pub seller_key : Keyed Seller
seller_key = record { id_of = λ r. r.id }

instance abbrev pub listing_key : Keyed Listing
listing_key = record { id_of = λ r. r.id }

instance abbrev pub cart_key : Keyed Cart
cart_key = record { id_of = λ r. r.id }

instance abbrev pub cart_item_key : Keyed CartItem
cart_item_key = record { id_of = λ r. r.id }

instance abbrev pub order_key : Keyed Order
order_key = record { id_of = λ r. r.id }

instance abbrev order_item_key : Keyed OrderItem
order_item_key = record { id_of = λ r. r.id }

instance abbrev pub payment_key : Keyed Payment
payment_key = record { id_of = λ r. r.id }

instance abbrev pub deliverer_key : Keyed Deliverer
deliverer_key = record { id_of = λ r. r.id }

instance abbrev pub address_key : Keyed Address
address_key = record { id_of = λ r. r.id }
