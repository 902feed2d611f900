-- ===== src/Listings/Writes.antt =====
-- How the requests of src/modules/listings/listings.service.ts write the rows of the listings.
use bomboli_server.Prelude.{
  Change, same as rows_same, moved, opened, Change-found, ℕ, ◌≡◌, ◌∙◌, ◌⊎◌, inl, inr, refl, sym, ap,
  false, none, some, ◌∷◌, update, by_id, is_none, arith, Option-cases,
}
use bomboli_server.Db.{Db, User, Listing, archived, ok, listing_key}
use bomboli_server.Users.{
  find_by_supabase_id, get_by_supabase_id_or_fail, find_seller_id_by_user_id,
}
use bomboli_server.Listings.{find_any_listing, require_seller_id, ensure_owns}

-- The actor's seller profile is the one of the id.
pub record IsSeller (actor seller_id : ℕ) (db : Db) : Type 0 where
  pub user : User
  pub has_user : find_by_supabase_id actor db ≡ some user
  pub has_profile : find_seller_id_by_user_id user.id db ≡ some seller_id

-- What no request changes of a listing: who sells it, that it is archived, that it is deleted.
pub record Keeps (l l' : Listing) : Type 0 where
  pub same_id : l'.id ≡ l.id
  pub same_seller : l'.seller_id ≡ l.seller_id
  pub stays_archived : l.status ≡ archived → l'.status ≡ archived
  pub stays_deleted : is_none l.deleted_at ≡ false → is_none l'.deleted_at ≡ false

pub Keeps-refl : (l : Listing) → Keeps l l
Keeps-refl l = record {
  same_id = refl;
  same_seller = refl;
  stays_archived = λ e. e;
  stays_deleted = λ e. e;
}

pub ensure_owns-pure : (actor i : ℕ) (db : Db) → (ensure_owns actor i db).1 ≡ db
unfolding ensure_owns require_seller_id get_by_supabase_id_or_fail
ensure_owns-pure actor i db = ground arith

pub require_seller_id-pure : (actor : ℕ) (db : Db) → (require_seller_id actor db).1 ≡ db
unfolding require_seller_id get_by_supabase_id_or_fail
require_seller_id-pure actor db = ground arith

pub ensure_owns-ok :
    (actor i : ℕ) (db db₁ : Db) (l : Listing)
    → ensure_owns actor i db ≡ (ok l, db₁)
    → (find_any_listing i db ≡ some l) × IsSeller actor l.seller_id db
unfolding ensure_owns require_seller_id get_by_supabase_id_or_fail
ensure_owns-ok actor i db db₁ l h = elim (Option-cases (find_by_supabase_id actor db)) [
  | inl u ↦ absurd (ground (arith, u))
  | inr (user, u) ↦ elim (Option-cases (find_seller_id_by_user_id user.id db)) [
    | inl s ↦ absurd (ground (arith, u, s))
    | inr (seller_id, s) ↦ elim (Option-cases (find_any_listing i db)) [
      | inl f ↦ absurd (ground (arith, u, s, f))
      | inr (x, f) ↦
          let owns : (x ≡ l) × (x.seller_id ≡ seller_id) = ground (arith, u, s, f) in
          (
            f ∙ ap some owns.0,
            record {
              user = user;
              has_user = u;
              has_profile = s ∙ ap some (sym owns.1 ∙ ap (λ r. r.seller_id) owns.0);
            },
          )
    ]
  ]
]

-- A listing is kept, and changed by its seller alone.
abbrev pub Allows : ℕ → Db → Listing → Listing → Type 0
Allows actor db l l' = Keeps l l' × ((l' ≡ l) ⊎ IsSeller actor l.seller_id db)

abbrev pub Kept : ℕ → Db → Db → Type 0
Kept actor db db' =
    (k : ℕ) (l : Listing)
    → find_any_listing k db ≡ some l
    → (l' : Listing) × (find_any_listing k db' ≡ some l') × Allows actor db l l'

-- How a request writes: not at all, the row of one listing of the caller, or a new row.
pub record Write (actor : ℕ) (db db' : Db) : Type 0 where
  pub rows : Change (Allows actor db) db.listings db'.listings

module _ {actor : ℕ} {db db' : Db} where
  pub same : db'.listings ≡ db.listings → Write actor db db'
  same h = record { rows = rows_same h }

  pub wrote :
      (i : ℕ) (l : Listing) (f : Listing → Listing)
      → find_any_listing i db ≡ some l
      → IsSeller actor l.seller_id db
      → ((q : Listing) → (f q).id ≡ q.id)
      → Keeps l (f l)
      → db'.listings ≡ update (by_id i) f db.listings
      → Write actor db db'
  unfolding find_any_listing
  wrote i l f there owner keep kept h = record { rows = moved i l f there keep (kept, inr owner) h }

  pub added :
      (l : Listing)
      → find_any_listing l.id db ≡ none
      → db'.listings ≡ l ∷ db.listings
      → Write actor db db'
  unfolding find_any_listing
  added l new h = record { rows = opened l new h }

pub Write-Kept : (actor : ℕ) (db db' : Db) → Write actor db db' → Kept actor db db'
unfolding find_any_listing
Write-Kept actor db db' w =
    Change-found (Allows actor db) (λ l. (Keeps-refl l, inl refl)) db.listings db'.listings w.rows
