-- ===== src/Listings/Photos/Race.antt =====
-- A job of the worker that has read the photos of a listing before they change
-- (src/modules/listings/photos/image-processing.processor.ts).
use bomboli_server.Prelude.{
  ℕ, ◌≡◌, refl, ap, ◌∙◌, Option, none, some, List, [], ◌∷◌, map_some, find, by_id, delete,
  find-update_self, arith,
}
use bomboli_server.Db.{Db, Env, Listing, Photo, ImageJob, photo_key, listing_key}
use bomboli_server.Listings.{find_any_listing}
use bomboli_server.Listings.Photos.{
  set_photos, delete_in, Variants, ready_photo, patch_photos, patch_listing,
}

unfoldable pub photo_of : ℕ → ℕ → Db → Option Photo
photo_of i photo_id db = elim (find_any_listing i db) [
  | none ↦ none
  | some row ↦ find (by_id photo_id) row.photos
]

find-delete_self : (i : ℕ) (xs : List Photo) → find (by_id i) (delete (by_id i) xs) ≡ none
unfolding find delete
find-delete_self i [] = refl
find-delete_self i (x ∷ xs) = ground (arith, find-delete_self i xs)

find-patch_photos :
    (i : ℕ) (v : Variants) (xs : List Photo)
    → find (by_id i) (patch_photos i v xs) ≡ map_some (ready_photo v) (find (by_id i) xs)
unfolding find patch_photos ready_photo
find-patch_photos i v [] = refl
find-patch_photos i v (x ∷ xs) = ground (arith, find-patch_photos i v xs)

find-set_photos :
    (env : Env) (i : ℕ) (ps : List Photo) (db : Db) (row : Listing)
    → find_any_listing i db ≡ some row
    → find_any_listing i (set_photos env i ps db).1
      ≡ some (record row { photos = ps; updated_at = env.now })
unfolding set_photos find_any_listing
find-set_photos env i ps db row h =
    let found =
      find-update_self i (λ (l : Listing). record l { photos = ps; updated_at = env.now })
        (λ r. refl) db.listings in
    rw (found, h) refl

photo_of-set_photos :
    (env : Env) (i photo_id : ℕ) (ps : List Photo) (db : Db) (row : Listing)
    → find_any_listing i db ≡ some row
    → photo_of i photo_id (set_photos env i ps db).1 ≡ find (by_id photo_id) ps
unfolding photo_of
photo_of-set_photos env i photo_id ps db row h = ground (arith, find-set_photos env i ps db row h)

module _ (env env' : Env) (job : ImageJob) (v : Variants) (p : Photo) (row : Listing)
    (db : Db) where
  -- A worker that has read the listing before a photo of it is deleted, and writes after, brings the
  -- deleted photo back, marked as ready.
  pub patch_listing-delete_in :
      find_any_listing job.listing_id db ≡ some row
      → find (by_id job.photo_id) row.photos ≡ some p
      → let deleted = (delete_in env job.listing_id job.photo_id row db).1 in
        (photo_of job.listing_id job.photo_id deleted ≡ none)
        × (photo_of job.listing_id job.photo_id
              (patch_listing env' job v (find_any_listing job.listing_id db) deleted).1
            ≡ some (ready_photo v p))
  unfolding delete_in patch_listing
  patch_listing-delete_in f has =
      let left = delete (by_id job.photo_id) row.photos in
      let gone = photo_of-set_photos env job.listing_id job.photo_id left db row f in
      let after = (set_photos env job.listing_id left db).1 in
      let still = find-set_photos env job.listing_id left db row f in
      let back =
        photo_of-set_photos env' job.listing_id job.photo_id
          (patch_photos job.photo_id v row.photos) after
          (record row { photos = left; updated_at = env.now }) still in
      let patched = find-patch_photos job.photo_id v row.photos in
      rw (has, f)
        (
          gone ∙ find-delete_self job.photo_id row.photos,
          back ∙ patched ∙ ap (map_some (ready_photo v)) has,
        )
