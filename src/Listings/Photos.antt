-- ===== src/Listings/Photos.antt =====
-- The photos of a listing: src/modules/listings/photos/listing-photos.service.ts and
-- image-processing.processor.ts. Supabase Storage and the image library are parameters.
pub mod Bound
pub mod Race
use Prim.Native.String.{String as Text, ◌++◌ as concat}
use Prim.Native.Char.{code}
use text.Mathlib.Text.{◌==◌ as str_eq}
use bomboli_server.Prelude.{
  ⊤, ℕ, ◌+◌, ◌==◌, suc, ltb, Bool, true, false, not, String, Option, none, some, List, [], ◌∷◌,
  ◌++◌, map, length, find, by_id, if◌then◌else◌, delete, or_default, ◌&&◌,
}
use bomboli_server.Db.{
  Db, Env, Listing, Photo, ImageJob, Error, Action, pure, gets, or_throw, throw_if, modify, ◌>>=◌,
  ◌>>◌, photo_key, listing_key,
}
use bomboli_server.Payments.Gateway.{Reply}
use bomboli_server.Payments.Confirm.{answer}
use bomboli_server.Listings.{ensure_owns, update_listings, find_any_listing}

abbrev pub max_photos : ℕ
max_photos = 10

pub data ContentType : Type 0 where
  jpeg png webp : ContentType

-- `SignedUploadUrl`
pub record SignedUploadUrl : Type 0 where
  pub path : String
  pub token : String
  pub signed_url : String

pub record InitPhotoResult : Type 0 where
  pub photo_id : ℕ
  pub signed : SignedUploadUrl

unfoldable extension : ContentType → String
extension jpeg = "jpg"
extension png = "png"
extension webp = "webp"

-- `${BUCKET}/${path}`
unfoldable in_bucket : String → String
in_bucket path = concat "listing-photos/" path

unfoldable strip_prefix : String → String → Option String
strip_prefix Text.[] s = some s
strip_prefix (Text.◌∷◌ c p) Text.[] = none
strip_prefix (Text.◌∷◌ c p) (Text.◌∷◌ d s) = if code c == code d then strip_prefix p s else none

-- The path without the bucket's name, if that stands in front.
unfoldable pub bucket_path : String → String
unfolding strip_prefix
bucket_path url = elim (strip_prefix "listing-photos/" url) [ some path ↦ path | none ↦ url ]

unfoldable pub set_photos : Env → ℕ → List Photo → Action ⊤
set_photos env i photos =
    modify (update_listings i (λ l. record l { photos = photos; updated_at = env.now }))

unfoldable pub pending_photo : ℕ → String → Option String → Photo
unfolding in_bucket
pending_photo id path alt = record {
  id = id;
  url = in_bucket path;
  sm = none;
  md = none;
  lg = none;
  alt = alt;
  uploaded_at = none;
  ready = false;
}

-- `text_of` writes an id, and `sign` is the storage's answer to a path.
module _ (text_of : ℕ → String) (sign : String → Reply SignedUploadUrl) where
  unfoldable pub photo_path : ℕ → ℕ → ContentType → String
  unfolding extension
  photo_path i photo_id content_type =
      concat (text_of i)
        (concat "/" (concat (text_of photo_id) (concat "." (extension content_type))))

  -- What follows the check of the owner.
  unfoldable pub reserve_slot :
      Env → ℕ → ContentType → Option String → Listing → Action InitPhotoResult
  reserve_slot env i content_type alt row = do
    throw_if (not (ltb (length row.photos) max_photos)) Error.not_found
    signed ← answer (sign (photo_path i (env.fresh 0) content_type))
    set_photos env i (row.photos ++ pending_photo (env.fresh 0) signed.path alt ∷ [])
    pure (record { photo_id = env.fresh 0; signed = signed })

  unfoldable pub init_upload : Env → ℕ → ℕ → ContentType → Option String → Action InitPhotoResult
  init_upload env actor i content_type alt =
      ensure_owns actor i >>= reserve_slot env i content_type alt

-- `next[idx] = photo`, at the first place with the id.
unfoldable pub replace_first : Photo → List Photo → List Photo
replace_first p [] = []
replace_first p (q ∷ photos) = if q.id == p.id then p ∷ photos else q ∷ replace_first p photos

unfoldable pub commit_in : Env → ℕ → ℕ → Listing → Action Photo
commit_in env i photo_id row = do
  photo ← or_throw Error.not_found (find (by_id photo_id) row.photos)
  let updated = record photo { uploaded_at = some env.now }
  set_photos env i (replace_first updated row.photos)
  modify (λ db. record db {
    image_jobs =
        record { listing_id = i; photo_id = photo_id; original_path = bucket_path photo.url }
        ∷ db.image_jobs;
  })
  pure updated

unfoldable pub commit_photo : Env → ℕ → ℕ → ℕ → Action Photo
commit_photo env actor i photo_id = ensure_owns actor i >>= commit_in env i photo_id

-- The removal of the files is tried first; its failure is ignored.
unfoldable pub delete_in : Env → ℕ → ℕ → Listing → Action ⊤
delete_in env i photo_id row = do
  or_throw Error.not_found (find (by_id photo_id) row.photos)
  set_photos env i (delete (by_id photo_id) row.photos)

unfoldable pub delete_photo : Env → ℕ → ℕ → ℕ → Action ⊤
delete_photo env actor i photo_id = ensure_owns actor i >>= delete_in env i photo_id

-- The variants of a photo that the worker has uploaded.
pub record Variants : Type 0 where
  pub sm : String
  pub md : String
  pub lg : String

unfoldable pub ready_photo : Variants → Photo → Photo
ready_photo v p = record p { sm = some v.sm; md = some v.md; lg = some v.lg; ready = true }

unfoldable pub patch_photos : ℕ → Variants → List Photo → List Photo
unfolding ready_photo
patch_photos photo_id v = map (λ p. if p.id == photo_id then ready_photo v p else p)

unfoldable pub patch_listing : Env → ImageJob → Variants → Option Listing → Action ⊤
patch_listing env job v none = pure tt
patch_listing env job v (some row) =
    set_photos env job.listing_id (patch_photos job.photo_id v row.photos)

-- The storage's side: whether the download of a path succeeds, and whether the resizing for a path
-- and its upload do.
pub record Bucket : Type 0 where
  pub downloads : String → Bool
  pub uploads : String → Bool

-- `original.slice(0, original.lastIndexOf('.'))`, if there is a dot.
unfoldable before_dot : String → Option String
before_dot Text.[] = none
before_dot (Text.◌∷◌ c s) = elim (before_dot s) [
  | some front ↦ some (Text.◌∷◌ c front)
  | none ↦ if code c == b'.' then some Text.[] else none
]

unfoldable path_with_suffix : String → String → String
unfolding before_dot
path_with_suffix original suffix =
    concat (or_default original (before_dot original)) (concat "_" (concat suffix ".jpg"))

-- The download, and then the three variants one after the other, up to the first that fails.
unfoldable pub make_variants : Bucket → String → Option Variants
unfolding path_with_suffix in_bucket
make_variants bucket original =
    let sm = path_with_suffix original "sm" in
    let md = path_with_suffix original "md" in
    let lg = path_with_suffix original "lg" in
    if bucket.downloads original && bucket.uploads sm && bucket.uploads md && bucket.uploads lg
    then some (record { sm = in_bucket sm; md = in_bucket md; lg = in_bucket lg })
    else none

unfoldable pub process_image : Env → Bucket → ImageJob → Action ⊤
process_image env bucket job = do
  v ← or_throw Error.upstream (make_variants bucket job.original_path)
  patch_listing env job v (← gets (find_any_listing job.listing_id))
