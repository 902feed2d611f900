-- ===== src/Db/State.antt =====
-- The state that a request reads and writes: the tables and the events emitted so far, the latest
-- first. What a request gets from outside is its clock and the ids that the generators of the
-- database (cuid) and of the code (ulid) hand out.
use bomboli_server.Prelude.{ℕ, String, Option, List}
use bomboli_server.Db.Types.{OrderStatus, ProviderKind, Currency}
use bomboli_server.Db.Rows.{
  User, Device, Seller, Verification, SellerStats, Listing, Cart, CartItem, Order, OrderItem,
  Payment, PaymentAttempt, Deliverer, Address,
}

-- `OrderEventPayload`
pub record OrderEvent : Type 0 where
  pub order_id : ℕ
  pub buyer_id : ℕ
  pub seller_id : ℕ
  pub status : OrderStatus
  pub previous_status : Option OrderStatus
  pub at : ℕ

-- `PaymentEventPayload`
pub record PaymentEvent : Type 0 where
  pub payment_id : ℕ
  pub order_id : ℕ
  pub provider : ProviderKind
  pub amount_cents : ℕ
  pub currency : Currency
  pub at : ℕ
  pub failure_reason : Option String

-- `OrderEvents`
pub data OrderEventName : Type 0 where
  created status_preparing status_on_the_way status_delivered : OrderEventName
  status_cancelled status_refunded : OrderEventName

-- `PaymentEvents`
pub data PaymentEventName : Type 0 where
  created succeeded failed cancelled refunded : PaymentEventName

pub data Event : Type 0 where
  order_event : OrderEventName → OrderEvent → Event
  payment_event : PaymentEventName → PaymentEvent → Event

-- `ImageProcessingJob`, a job of the queue `image-processing`.
pub record ImageJob : Type 0 where
  pub listing_id : ℕ
  pub photo_id : ℕ
  pub original_path : String

pub record Db : Type 0 where
  pub users : List User
  pub devices : List Device
  pub sellers : List Seller
  pub verifications : List Verification
  pub seller_stats : List SellerStats
  pub listings : List Listing
  pub carts : List Cart
  pub cart_items : List CartItem
  pub orders : List Order
  pub order_items : List OrderItem
  pub payments : List Payment
  pub attempts : List PaymentAttempt
  pub deliverers : List Deliverer
  pub addresses : List Address
  pub image_jobs : List ImageJob
  pub events : List Event

-- `fresh n` is the id that the request's n-th new row gets.
pub record Env : Type 0 where
  pub now : ℕ
  pub fresh : ℕ → ℕ
