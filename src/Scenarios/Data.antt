-- ===== src/Scenarios/Data.antt =====
-- A shop with one seller, a buyer with a full cart, an order in preparation with a pending payment
-- and one without any.
use bomboli_server.Prelude.{◌+◌, false, none, some, [], ◌∷◌}
use bomboli_server.Db.{
  Db, Env, Point, User, Seller, Listing, Cart, CartItem, Order, OrderItem, OrderStatus, Payment,
  PaymentStatus, paypal, cdf, published, pickup, agricole,
}
use bomboli_server.Orders.Checkout.{CreateOrderInput}

abbrev pub env : Env
env = record { now = 1000; fresh = λ n. 100 + n }

abbrev pub later : Env
later = record { now = 2000; fresh = λ n. 200 + n }

abbrev market : Point
market = record { lat = 1; lng = 2 }

abbrev pub buyer : User
buyer = record {
  id = 1;
  supabase_id = 11;
  email = "buyer";
  phone = none;
  display_name = some "Buyer";
  avatar_url = none;
  is_admin = false;
  preferred_language = "fr";
  theme_pref = "system";
  default_location = none;
  email_verified_at = none;
  phone_verified_at = none;
  last_sign_in_at = none;
  created_at = 1;
  updated_at = 1;
}

abbrev pub merchant : User
merchant = record {
  id = 2;
  supabase_id = 12;
  email = "merchant";
  phone = none;
  display_name = some "Merchant";
  avatar_url = none;
  is_admin = false;
  preferred_language = "fr";
  theme_pref = "system";
  default_location = none;
  email_verified_at = none;
  phone_verified_at = none;
  last_sign_in_at = none;
  created_at = 1;
  updated_at = 1;
}

abbrev shop : Seller
shop = record {
  id = 5;
  user_id = 2;
  bio = none;
  hero_url = none;
  banner_url = none;
  delivery_radius_km = 15;
  availability = none;
  languages = [];
  pickup_point = some market;
  promo_text = none;
  promo_active = false;
  promo_expires_at = none;
  created_at = 1;
  updated_at = 1;
}

abbrev pub rice : Listing
rice = record {
  id = 7;
  seller_id = 5;
  title = "Rice";
  description = "A bag of rice";
  category = agricole;
  price_cents = 300;
  currency = cdf;
  location = market;
  photos = [];
  options = none;
  expires_at = none;
  created_at = 1;
  quantity_available = 4;
  status = published;
  published_at = some 1;
  deleted_at = none;
  updated_at = 1;
}

abbrev pub beans : Listing
beans = record rice { id = 8; title = "Beans"; price_cents = 250; quantity_available = 2 }

abbrev pub basket : Cart
basket = record { id = 9; user_id = 1; seller_id = some 5; currency = some cdf }

abbrev pub two_rice : CartItem
two_rice = record { id = 20; cart_id = 9; listing_id = 7; quantity = 2; options = none }

abbrev pub two_beans : CartItem
two_beans = record { id = 21; cart_id = 9; listing_id = 8; quantity = 2; options = none }

abbrev pub open_order : Order
open_order = record {
  id = 30;
  buyer_id = 1;
  seller_id = 5;
  status = OrderStatus.preparing;
  fulfillment_type = pickup;
  address_snapshot = none;
  subtotal_cents = 300;
  discount_cents = 0;
  delivery_fee_cents = 0;
  total_cents = 300;
  currency = cdf;
  eta_at = none;
  deliverer_id = none;
  payment_id = none;
  created_at = 10;
  updated_at = 10;
}

abbrev pub unpaid_order : Order
unpaid_order = record open_order { id = 33 }

abbrev sold_rice : OrderItem
sold_rice = record {
  id = 31;
  order_id = 30;
  listing_id = 7;
  title_snapshot = "Rice";
  price_cents_snapshot = 300;
  photo_url_snapshot = none;
  quantity = 1;
  options = none;
}

abbrev pub pending_payment : Payment
pending_payment = record {
  id = 40;
  order_id = 30;
  provider = paypal;
  provider_ref = some "R1";
  amount_cents = 300;
  currency = cdf;
  status = PaymentStatus.pending;
  captured_at = none;
  failure_reason = none;
  metadata = none;
}

abbrev pub db : Db
db = record {
  users = buyer ∷ merchant ∷ [];
  devices = [];
  sellers = shop ∷ [];
  verifications = [];
  seller_stats = [];
  listings = rice ∷ beans ∷ [];
  carts = basket ∷ [];
  cart_items = two_rice ∷ two_beans ∷ [];
  orders = open_order ∷ unpaid_order ∷ [];
  order_items = sold_rice ∷ [];
  payments = pending_payment ∷ [];
  attempts = [];
  deliverers = [];
  addresses = [];
  image_jobs = [];
  events = [];
}

abbrev pub to_pick_up : CreateOrderInput
to_pick_up = record { fulfillment_type = pickup; address_id = none; delivery_fee_cents = none }
