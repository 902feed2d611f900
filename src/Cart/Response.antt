-- ===== src/Cart/Response.antt =====
-- `CartResponseDto` and what composes it: `composeWithSeller` and `composeItem` of
-- src/modules/cart/cart.service.ts.
use bomboli_server.Prelude.{
  ℕ, ◌*◌, String, Option, none, some, List, map, sum_by, find, by_id, map_some,
}
use bomboli_server.Db.{
  Db, Listing, ListingStatus, Cart, CartItem, Currency, listing_key, cart_key, cart_item_key,
  seller_key,
}
use bomboli_server.Orders.Access.{SellerSummary, seller_summary}
use bomboli_server.Orders.Checkout.{cart_items_of, first_photo}

-- `CartItemListingSummaryDto`
pub record ListingSummary : Type 0 where
  pub id : ℕ
  pub title : String
  pub price_cents : ℕ
  pub currency : Currency
  pub primary_photo_url : Option String
  pub status : ListingStatus

pub record CartLine : Type 0 where
  pub id : ℕ
  pub listing : Option ListingSummary
  pub quantity : ℕ
  pub options : Option String
  pub line_total_cents : ℕ

-- `CartResponseDto`
pub record CartResponse : Type 0 where
  pub id : ℕ
  pub seller_id : Option ℕ
  pub currency : Option Currency
  pub seller : Option SellerSummary
  pub items : List CartLine
  pub item_count : ℕ
  pub subtotal_cents : ℕ

unfoldable pub summary_of : Listing → ListingSummary
unfolding first_photo
summary_of l = record {
  id = l.id;
  title = l.title;
  price_cents = l.price_cents;
  currency = l.currency;
  primary_photo_url = first_photo l.photos;
  status = l.status;
}

-- The price of the item's listing, which the foreign key sees to be there.
unfoldable price_of : Option Listing → ℕ
price_of none = 0
price_of (some l) = l.price_cents

-- `composeItem`
unfoldable compose_line : Db → CartItem → CartLine
unfolding summary_of price_of
compose_line db i = record {
  id = i.id;
  listing = map_some summary_of (find (by_id i.listing_id) db.listings);
  quantity = i.quantity;
  options = i.options;
  line_total_cents = price_of (find (by_id i.listing_id) db.listings) * i.quantity;
}

unfoldable seller_of_cart : Option ℕ → Db → Option SellerSummary
unfolding seller_summary
seller_of_cart none db = none
seller_of_cart (some s) db = map_some (seller_summary db) (find (by_id s) db.sellers)

-- `composeWithSeller`
unfoldable pub compose_cart : Cart → Db → CartResponse
unfolding compose_line seller_of_cart
compose_cart cart db =
    let items = map (compose_line db) (cart_items_of cart.id db.cart_items) in
    record {
      id = cart.id;
      seller_id = cart.seller_id;
      currency = cart.currency;
      seller = seller_of_cart cart.seller_id db;
      items = items;
      item_count = sum_by (λ l. l.quantity) items;
      subtotal_cents = sum_by (λ l. l.line_total_cents) items;
    }
