-- ===== src/Db/Types.antt =====
-- The enums of prisma/schema.prisma and the error codes and exceptions of src/common, with their
-- tests for equality.
use bomboli_server.Prelude.{Bool, true, false, ℕ}

pub data OrderStatus : Type 0 where
  preparing on_the_way delivered cancelled refunded : OrderStatus

pub data ListingStatus : Type 0 where
  draft published sold_out archived : ListingStatus

pub data ListingCategory : Type 0 where
  cosmetique textile seconde_main agricole services autres : ListingCategory

pub data PaymentStatus : Type 0 where
  pending succeeded failed cancelled refunded : PaymentStatus

pub data ProviderKind : Type 0 where
  stripe paypal pawapay manual : ProviderKind

pub data FulfillmentType : Type 0 where
  delivery pickup : FulfillmentType

pub data VehicleType : Type 0 where
  moto voiture velo a_pied : VehicleType

pub data Platform : Type 0 where
  ios android web : Platform

pub data VerificationKind : Type 0 where
  identity hygiene_charter phone address : VerificationKind

pub data VerificationStatus : Type 0 where
  pending approved rejected : VerificationStatus

-- `src/common/money/currency.ts`; the DTOs admit no other currency.
pub data Currency : Type 0 where
  cdf usd : Currency

-- The codes of `error-codes.constants.ts` that the modelled services raise.
pub data ErrorCode : Type 0 where
  unknown validation_failed unauthorized forbidden conflict auth_provider_error : ErrorCode
  rate_limited invalid_credentials email_taken email_not_verified invalid_otp : ErrorCode
  password_too_weak not_found : ErrorCode
  cart_seller_conflict out_of_stock invalid_order_transition : ErrorCode

-- What a method throws: Nest's exceptions, a `DomainException` with its HTTP status, Prisma's
-- refusals to update a row that is not there (P2025) and to store a value twice in a unique column
-- (P2002), and any other exception.
pub data Error : Type 0 where
  not_found forbidden unauthorized conflict bad_request : Error
  missing_record unique_violation upstream : Error
  domain : ErrorCode → ℕ → Error

abbrev pub eq_currency : Currency → Currency → Bool
eq_currency cdf cdf = true
eq_currency usd usd = true
eq_currency _ _ = false

abbrev pub eq_order_status : OrderStatus → OrderStatus → Bool
eq_order_status OrderStatus.preparing OrderStatus.preparing = true
eq_order_status OrderStatus.on_the_way OrderStatus.on_the_way = true
eq_order_status OrderStatus.delivered OrderStatus.delivered = true
eq_order_status OrderStatus.cancelled OrderStatus.cancelled = true
eq_order_status OrderStatus.refunded OrderStatus.refunded = true
eq_order_status _ _ = false

abbrev pub eq_listing_status : ListingStatus → ListingStatus → Bool
eq_listing_status draft draft = true
eq_listing_status published published = true
eq_listing_status sold_out sold_out = true
eq_listing_status archived archived = true
eq_listing_status _ _ = false

abbrev pub eq_payment_status : PaymentStatus → PaymentStatus → Bool
eq_payment_status PaymentStatus.pending PaymentStatus.pending = true
eq_payment_status PaymentStatus.succeeded PaymentStatus.succeeded = true
eq_payment_status PaymentStatus.failed PaymentStatus.failed = true
eq_payment_status PaymentStatus.cancelled PaymentStatus.cancelled = true
eq_payment_status PaymentStatus.refunded PaymentStatus.refunded = true
eq_payment_status _ _ = false

abbrev pub eq_provider : ProviderKind → ProviderKind → Bool
eq_provider stripe stripe = true
eq_provider paypal paypal = true
eq_provider pawapay pawapay = true
eq_provider manual manual = true
eq_provider _ _ = false

abbrev pub is_delivery : FulfillmentType → Bool
is_delivery delivery = true
is_delivery pickup = false
