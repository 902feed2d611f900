-- ===== src/Scenarios/Catalogue.antt =====
-- Reads of the listings of the shop, and the photos of its rice.
use bomboli_server.Prelude.{◌≡◌, refl, false, String, none, some, [], ◌∷◌, find, arith}
use bomboli_server.Db.{Db, Photo, ImageJob, Listing}
use bomboli_server.Payments.Gateway.{replied}
use bomboli_server.Listings.{find_any_listing}
use bomboli_server.Listings.Photos.{
  SignedUploadUrl, jpeg, Variants, init_upload, commit_photo, delete_in, ready_photo, patch_listing,
}
use bomboli_server.Listings.Photos.Bound.{AtMostTen, here, next, inits, commits, Reach-AtMostTen}
use bomboli_server.Listings.Photos.Race.{photo_of, patch_listing-delete_in}
use bomboli_server.Scenarios.Data.{env, later, db, rice}

abbrev url_for : String → SignedUploadUrl
url_for path = record { path = path; token = "token"; signed_url = "https" }

abbrev with_slot : Db
with_slot = (init_upload (λ i. "id") (λ path. replied (url_for path)) env 12 7 jpeg none db).1

abbrev with_upload : Db
with_upload = (commit_photo later 12 7 100 with_slot).1

Reach-AtMostTen_example : AtMostTen with_upload
Reach-AtMostTen_example =
    Reach-AtMostTen (λ i. "id") db with_upload
      (next (next here (inits (λ path. replied (url_for path)) env 12 7 jpeg none db))
        (commits later 12 7 100 with_slot))
      (omega arith)

abbrev front : Photo
front = record {
  id = 50;
  url = "listing-photos/7/50.jpg";
  sm = none;
  md = none;
  lg = none;
  alt = none;
  uploaded_at = some 900;
  ready = false;
}

abbrev shown_rice : Listing
shown_rice = record rice { photos = front ∷ [] }

abbrev photo_db : Db
photo_db = record db { listings = shown_rice ∷ [] }

abbrev job : ImageJob
job = record { listing_id = 7; photo_id = 50; original_path = "7/50.jpg" }

abbrev made : Variants
made = record { sm = "s"; md = "m"; lg = "l" }

patch_listing-delete_in_example :
    let deleted = (delete_in env 7 50 shown_rice photo_db).1 in
    (photo_of 7 50 deleted ≡ none)
    × (photo_of 7 50 (patch_listing later job made (find_any_listing 7 photo_db) deleted).1
        ≡ some (ready_photo made front))
unfolding find_any_listing find
patch_listing-delete_in_example =
    patch_listing-delete_in env later job made front shown_rice photo_db refl refl
