-- ===== src/Listings/Photos/Bound.antt =====
-- How many photos a listing has, over the requests and the jobs of
-- src/modules/listings/photos/listing-photos.service.ts and image-processing.processor.ts.
use bomboli_server.Prelude.{
  ℕ, ◌+◌, ◌≤◌, ltb, ◌≡◌, inl, inr, refl, subst, String, Option, some, List, [], ◌∷◌, ◌++◌, length,
  length-map, find, by_id, update, delete, All, All-update, find-All, arith, Bool-cases,
  Option-cases,
}
use bomboli_server.Db.{
  Action, ◌>>=◌, Db, Env, Listing, Photo, ImageJob, Run-cases, photo_key, listing_key,
}
use bomboli_server.Payments.Gateway.{Reply, Reply-cases}
use bomboli_server.Payments.Confirm.{answer}
use bomboli_server.Listings.{ensure_owns, find_any_listing}
use bomboli_server.Listings.Writes.{ensure_owns-pure, ensure_owns-ok}
use bomboli_server.Listings.Photos.{
  max_photos, ContentType, SignedUploadUrl, photo_path, pending_photo, set_photos, init_upload,
  reserve_slot, commit_in, delete_in, replace_first, commit_photo, delete_photo, Variants,
  patch_photos, patch_listing, process_image, Bucket, make_variants,
}

abbrev pub AtMostTen : Db → Type 0
AtMostTen db = All (λ l. length l.photos ≤ 10) db.listings

abbrev photos_row : Env → List Photo → Listing → Listing
photos_row env photos l = record l { photos = photos; updated_at = env.now }

-- What an operation on the photos of a listing does to the table.
data Wrote (env : Env) (i : ℕ) (db db' : Db) : Type 0 where
  nothing : db'.listings ≡ db.listings → Wrote env i db db'
  photos :
      (row : Listing) (ps : List Photo)
      → find_any_listing i db ≡ some row
      → (length row.photos ≤ 10 → length ps ≤ 10)
      → db'.listings ≡ update (by_id i) (photos_row env ps) db.listings
      → Wrote env i db db'

Wrote-AtMostTen :
    (env : Env) (i : ℕ) (db db' : Db) → Wrote env i db db' → AtMostTen db → AtMostTen db'
unfolding find_any_listing
Wrote-AtMostTen env i db db' (nothing h) all = rw h all
Wrote-AtMostTen env i db db' (photos row ps found few h) all =
    let held =
      find-All (λ (l : Listing). length l.photos ≤ 10) (by_id i) db.listings row all found in
    rw h (
      All-update (λ l. length l.photos ≤ 10) (by_id i) (photos_row env ps) (λ r _. few held)
        db.listings all)

length-append : (xs : List Photo) (p : Photo) → length (xs ++ p ∷ []) ≡ length xs + 1
length-append [] p = omega arith
length-append (x ∷ xs) p = omega (arith, length-append xs p)

length-replace_first : (p : Photo) (xs : List Photo) → length (replace_first p xs) ≡ length xs
unfolding replace_first
length-replace_first p [] = refl
length-replace_first p (x ∷ xs) = ground (arith, length-replace_first p xs)

length-delete-le : (i : ℕ) (xs : List Photo) → length (delete (by_id i) xs) ≤ length xs
unfolding delete
length-delete-le i [] = omega arith
length-delete-le i (x ∷ xs) = ground (arith, length-delete-le i xs)

length-patch_photos :
    (i : ℕ) (v : Variants) (xs : List Photo) → length (patch_photos i v xs) ≡ length xs
unfolding patch_photos
length-patch_photos i v xs = length-map _ xs

module _ (env : Env) where
  -- What follows the check of the owner starts from the same state, at the owner's listing.
  owned-Wrote :
      {A : Type 0} (actor i : ℕ) (k : Listing → Action A) (db : Db)
      → ((row : Listing) → find_any_listing i db ≡ some row → Wrote env i db (k row db).1)
      → Wrote env i db ((ensure_owns actor i >>= k) db).1
  owned-Wrote actor i k db wrote = elim (Run-cases (ensure_owns actor i db)) [
    | inr (e, db₁, r) ↦ nothing (ground (arith, r, ensure_owns-pure actor i db))
    | inl (row, db₁, r) ↦
        let still : db₁ ≡ db = ground (arith, r, ensure_owns-pure actor i db) in
        let (there, owner) = ensure_owns-ok actor i db db₁ row r in
        subst (Wrote env i db) (ground (arith, r, still)) (wrote row there)
  ]

  commit_photo-Wrote :
      (actor i photo_id : ℕ) (db : Db) → Wrote env i db (commit_photo env actor i photo_id db).1
  unfolding commit_photo commit_in set_photos
  commit_photo-Wrote actor i photo_id db =
      owned-Wrote actor i (commit_in env i photo_id) db λ row there.
        elim (Option-cases (find (by_id photo_id) row.photos)) [
          | inl f ↦ nothing (ground (arith, f))
          | inr (p, f) ↦
              let committed : Photo = record p { uploaded_at = some env.now } in
              photos row (replace_first committed row.photos) there
                (λ h. omega (arith, length-replace_first committed row.photos)) (ground (arith, f))
        ]

  delete_photo-Wrote :
      (actor i photo_id : ℕ) (db : Db) → Wrote env i db (delete_photo env actor i photo_id db).1
  unfolding delete_photo delete_in set_photos
  delete_photo-Wrote actor i photo_id db =
      owned-Wrote actor i (delete_in env i photo_id) db λ row there.
        elim (Option-cases (find (by_id photo_id) row.photos)) [
          | inl f ↦ nothing (ground (arith, f))
          | inr (p, f) ↦
              photos row (delete (by_id photo_id) row.photos) there
                (λ h. omega (arith, length-delete-le photo_id row.photos)) (ground (arith, f))
        ]

  init_upload-Wrote :
      (text_of : ℕ → String) (sign : String → Reply SignedUploadUrl) (actor i : ℕ) (t : ContentType)
      (alt : Option String) (db : Db)
      → Wrote env i db (init_upload text_of sign env actor i t alt db).1
  unfolding init_upload reserve_slot set_photos answer
  init_upload-Wrote text_of sign actor i t alt db =
      owned-Wrote actor i (reserve_slot text_of sign env i t alt) db λ row there.
        elim (Bool-cases (ltb (length row.photos) max_photos)) [
          | inr full ↦ nothing (ground (arith, full))
          | inl room ↦ elim (Reply-cases (sign (photo_path text_of sign i (env.fresh 0) t))) [
            | inr (e, message, f) ↦ nothing (ground (arith, room, f))
            | inl (signed, f) ↦
                let entry = pending_photo (env.fresh 0) signed.path alt in
                photos row (row.photos ++ entry ∷ []) there
                  (λ h. ground (arith, room, length-append row.photos entry))
                  (ground (arith, room, f))
          ]
        ]

  process_image-Wrote :
      (bucket : Bucket) (job : ImageJob) (db : Db)
      → Wrote env job.listing_id db (process_image env bucket job db).1
  unfolding process_image patch_listing set_photos
  process_image-Wrote bucket job db = elim (Option-cases (make_variants bucket job.original_path)) [
    | inl m ↦ nothing (ground (arith, m))
    | inr (v, m) ↦ elim (Option-cases (find_any_listing job.listing_id db)) [
      | inl f ↦ nothing (ground (arith, m, f))
      | inr (row, f) ↦
          photos row (patch_photos job.photo_id v row.photos) f
            (λ h. omega (arith, length-patch_photos job.photo_id v row.photos))
            (ground (arith, m, f))
    ]
  ]

-- The requests for uploads, commits and deletions of photos, and the jobs of the worker, each at
-- its own time and by anybody.
pub data Step (text_of : ℕ → String) : Db → Db → Type 0 where
  inits :
      (sign : String → Reply SignedUploadUrl) (env : Env) (actor i : ℕ) (t : ContentType)
      (alt : Option String) (db : Db)
      → Step text_of db (init_upload text_of sign env actor i t alt db).1
  commits :
      (env : Env) (actor i photo_id : ℕ) (db : Db)
      → Step text_of db (commit_photo env actor i photo_id db).1
  removes :
      (env : Env) (actor i photo_id : ℕ) (db : Db)
      → Step text_of db (delete_photo env actor i photo_id db).1
  processes :
      (env : Env) (bucket : Bucket) (job : ImageJob) (db : Db)
      → Step text_of db (process_image env bucket job db).1

pub data Reach (text_of : ℕ → String) : Db → Db → Type 0 where
  here : {db : Db} → Reach text_of db db
  next : {a b c : Db} → Reach text_of a b → Step text_of b c → Reach text_of a c

module _ (text_of : ℕ → String) where
  Step-AtMostTen : {a b : Db} → Step text_of a b → AtMostTen a → AtMostTen b
  Step-AtMostTen (inits sign env actor i t alt db) =
      Wrote-AtMostTen env i db _ (init_upload-Wrote env text_of sign actor i t alt db)
  Step-AtMostTen (commits env actor i photo_id db) =
      Wrote-AtMostTen env i db _ (commit_photo-Wrote env actor i photo_id db)
  Step-AtMostTen (removes env actor i photo_id db) =
      Wrote-AtMostTen env i db _ (delete_photo-Wrote env actor i photo_id db)
  Step-AtMostTen (processes env bucket job db) =
      Wrote-AtMostTen env job.listing_id db _ (process_image-Wrote env bucket job db)

  -- From a state in which no listing has more than ten photos, none ever has, over any sequence of
  -- requests for uploads, commits and deletions of photos and of jobs of the worker, each run as a
  -- whole.
  pub Reach-AtMostTen : (a b : Db) → Reach text_of a b → AtMostTen a → AtMostTen b
  Reach-AtMostTen a b here all = all
  Reach-AtMostTen a b (next {b = c} r s) all = Step-AtMostTen s (Reach-AtMostTen a c r all)
