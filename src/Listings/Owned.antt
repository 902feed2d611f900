-- ===== src/Listings/Owned.antt =====
-- What the requests of src/modules/listings/listings.service.ts may do to a listing.
use bomboli_server.Prelude.{
  ⊤, ℕ, ◌≡◌, ◌⊎◌, inl, inr, refl, true, Option, none, some, arith, Bool-cases,
}
use bomboli_server.Db.{
  done, done-state, Db, Env, Listing, ListingStatus, published, archived, Action, Run-cases,
  listing_key, eq_listing_status,
}
use bomboli_server.Listings.{
  CreateListingInput, UpdateListingInput, find_any_listing, update_listings, require_seller_id,
  ensure_owns, draft_row, create_listing, apply_update, update_listing, status_row, set_status,
  move_status, transition_status, publish, archive, deleted_row, soft_delete, allowed,
}
use bomboli_server.Listings.Writes.{
  Keeps, Write, same, wrote, added, Kept, ensure_owns-pure, require_seller_id-pure, ensure_owns-ok,
  Write-Kept,
}

-- A request of a user.
pub data Request : Type 0 where
  creates : CreateListingInput → Request
  updates : ℕ → UpdateListingInput → Request
  publishes archives deletes : ℕ → Request

unfoldable pub respond : Env → ℕ → Request → Action ⊤
respond env actor (Request.creates input) = done (create_listing env actor input)
respond env actor (Request.updates i input) = done (update_listing env actor i input)
respond env actor (Request.publishes i) = done (publish env actor i)
respond env actor (Request.archives i) = done (archive env actor i)
respond env actor (Request.deletes i) = soft_delete env actor i

-- A status is only written where the table of transitions allows it.
status_row-Keeps :
    (env : Env) (next : ListingStatus) (published_at : Option ℕ) (l : Listing)
    → (next ≡ published) ⊎ (next ≡ archived)
    → allowed l.status next ≡ true
    → Keeps l (status_row env next published_at l)
unfolding allowed
status_row-Keeps env next published_at l goal can = record {
  same_id = refl;
  same_seller = refl;
  stays_archived = λ e. ground (arith, goal, can, e);
  stays_deleted = λ e. e;
}

move_status-done :
    (env : Env) (i : ℕ) (next : ListingStatus) (published_at : Option ℕ) (l : Listing) (db : Db)
    → ((move_status env i next published_at l db).1 ≡ db)
      ⊎ ((allowed l.status next ≡ true)
          × ((move_status env i next published_at l db).1
              ≡ update_listings i (status_row env next published_at) db))
unfolding move_status set_status
move_status-done env i next published_at l db =
    elim (Bool-cases (eq_listing_status l.status next)) [
      | inl e ↦ inl (ground (arith, e))
      | inr e ↦ elim (Bool-cases (allowed l.status next)) [
        | inl can ↦ inr (can, ground (arith, e, can))
        | inr cannot ↦ inl (ground (arith, e, cannot))
      ]
    ]

transition_status-Write :
    (env : Env) (actor i : ℕ) (next : ListingStatus) (published_at : Option ℕ) (db : Db)
    → (next ≡ published) ⊎ (next ≡ archived)
    → Write actor db (transition_status env actor i next published_at db).1
unfolding transition_status
transition_status-Write env actor i next published_at db goal =
    elim (Run-cases (ensure_owns actor i db)) [
      | inr (e, db₁, k) ↦ same (ground (arith, k, ensure_owns-pure actor i db))
      | inl (l, db₁, k) ↦
          let still : db₁ ≡ db = ground (arith, k, ensure_owns-pure actor i db) in
          let (there, owner) = ensure_owns-ok actor i db db₁ l k in
          elim (move_status-done env i next published_at l db) [
            | inl stays ↦ same (ground (arith, k, still, stays))
            | inr (can, moves) ↦
                wrote i l (status_row env next published_at) there owner (λ q. refl)
                  (status_row-Keeps env next published_at l goal can)
                  (ground (arith, k, still, moves))
          ]
    ]

update_listing-Write :
    (env : Env) (actor i : ℕ) (input : UpdateListingInput) (db : Db)
    → Write actor db (update_listing env actor i input db).1
unfolding update_listing
update_listing-Write env actor i input db = elim (Run-cases (ensure_owns actor i db)) [
  | inr (e, db₁, k) ↦ same (ground (arith, k, ensure_owns-pure actor i db))
  | inl (l, db₁, k) ↦
      let still : db₁ ≡ db = ground (arith, k, ensure_owns-pure actor i db) in
      let (there, owner) = ensure_owns-ok actor i db db₁ l k in
      wrote i l (apply_update env input) there owner (λ q. refl)
        (record {
          same_id = refl;
          same_seller = refl;
          stays_archived = λ e. e;
          stays_deleted = λ e. e;
        })
        (ground (arith, k, still))
]

soft_delete-Write :
    (env : Env) (actor i : ℕ) (db : Db) → Write actor db (soft_delete env actor i db).1
unfolding soft_delete
soft_delete-Write env actor i db = elim (Run-cases (ensure_owns actor i db)) [
  | inr (e, db₁, k) ↦ same (ground (arith, k, ensure_owns-pure actor i db))
  | inl (l, db₁, k) ↦
      let still : db₁ ≡ db = ground (arith, k, ensure_owns-pure actor i db) in
      let (there, owner) = ensure_owns-ok actor i db db₁ l k in
      wrote i l (deleted_row env) there owner (λ q. refl)
        (record {
          same_id = refl;
          same_seller = refl;
          stays_archived = λ e. refl;
          stays_deleted = λ e. refl;
        })
        (ground (arith, k, still))
]

create_listing-Write :
    (env : Env) (actor : ℕ) (input : CreateListingInput) (db : Db)
    → find_any_listing (env.fresh 0) db ≡ none
    → Write actor db (create_listing env actor input db).1
unfolding create_listing
create_listing-Write env actor input db new = elim (Run-cases (require_seller_id actor db)) [
  | inr (e, db₁, k) ↦ same (ground (arith, k, require_seller_id-pure actor db))
  | inl (s, db₁, k) ↦
      added (draft_row env s input) new (ground (arith, k, require_seller_id-pure actor db))
]

-- Whatever a user asks of the listings, allowed or not, every listing stays with its seller, an
-- archived one stays archived and a deleted one deleted, and a listing that changes belongs to the
-- seller profile of the user; if the id for a new listing is not in use.
pub respond-Kept :
    (env : Env) (actor : ℕ) (request : Request) (db : Db)
    → find_any_listing (env.fresh 0) db ≡ none
    → Kept actor db (respond env actor request db).1
unfolding respond publish archive
respond-Kept env actor request db new =
    Write-Kept actor db (respond env actor request db).1 (go request)
  where
    go : (request : Request) → Write actor db (respond env actor request db).1
    go (Request.creates input) =
        rw (done-state (create_listing env actor input) db)
          (create_listing-Write env actor input db new)
    go (Request.updates i input) =
        rw (done-state (update_listing env actor i input) db)
          (update_listing-Write env actor i input db)
    go (Request.publishes i) =
        rw (done-state (publish env actor i) db)
          (transition_status-Write env actor i published (some env.now) db (inl refl))
    go (Request.archives i) =
        rw (done-state (archive env actor i) db)
          (transition_status-Write env actor i archived none db (inr refl))
    go (Request.deletes i) = soft_delete-Write env actor i db
