-- ===== src/Discovery/Feed/Nearby.antt =====
-- The rail of the sellers of src/modules/discovery/feed.service.ts.
use bomboli_server.Prelude.{
  ◌≤◌, ◌≡◌, ◌==◌, ◌⊎◌, Bool, true, none, some, List, find, by_id, All, Any, ◌&&◌,
}
use bomboli_server.Db.{Db, Point, User, Seller, Listing, published, seller_key, user_key}
use bomboli_server.Listings.Read.{is_listed}
use bomboli_server.Discovery.{Engine}
use bomboli_server.Discovery.Feed.{SellerNearby}

-- A listing of a seller that is published and not deleted, and stands within 30 km of a place,
-- whether it has expired or not.
pub record IsOffer (engine : Engine) (p : Point) (s : Seller) (l : Listing) : Type 0 where
  pub of_seller : l.seller_id ≡ s.id
  pub listed : l.status ≡ published
  pub not_deleted : l.deleted_at ≡ none
  pub close : engine.within l.location p 30000 ≡ true

-- A seller of the rail, at a place: its user, and the distance of the nearest of its offers.
pub record IsNearby (engine : Engine) (p : Point) (db : Db) (r : SellerNearby) : Type 0 where
  pub user : find (by_id r.seller.user_id) db.users ≡ some r.user
  pub reached :
      Any
        (λ l. IsOffer engine p r.seller l × (engine.distance l.location p ≡ r.distance))
        db.listings
  pub nearest :
      All
        (λ l. (¬ IsOffer engine p r.seller l) ⊎ (r.distance ≤ engine.distance l.location p))
        db.listings

-- A seller with a user and an offer.
abbrev pub Offers : Engine → Point → Db → Seller → Type 0
Offers engine p db s =
    ((u : User) × (find (by_id s.user_id) db.users ≡ some u)) × Any (IsOffer engine p s) db.listings

module _ (engine : Engine) (p : Point) where
  -- The join of a seller with a listing.
  abbrev joins : Seller → Listing → Bool
  joins s l = l.seller_id == s.id && is_listed l && engine.within l.location p 30000

module _ (engine : Engine) (p : Point) (db : Db) where
  -- The rows name a seller, or the seller has no user or no offer.
  abbrev pub IsCovered : List SellerNearby → Seller → Type 0
  IsCovered rows s = Any (λ r. r.seller ≡ s) rows ⊎ (¬ Offers engine p db s)
