-- ===== src/Listings/Read/Batch.antt =====
-- The batched seller lookup of src/modules/listings/listings.mapper.ts against one lookup a row.
use bomboli_server.Prelude.{
  ℕ, ◌==◌, ◌≡◌, ◌≢◌, ◌∙◌, refl, sym, ap, ap₂, subst, Bool, true, false, none, some, List, [], ◌∷◌,
  map, find, select, by_id, map_some, UniqueIds, All, All-map_impl, find-select, ==→eq, ==-refl,
  Bool-cases, inl, inr, arith,
}
use bomboli_server.Db.{Db, Seller, Listing, seller_key, user_key}
use bomboli_server.Listings.Read.{
  ListingResponse, build, contains, distinct, lookup_row, find_sellers, map_get, compose_many,
  compose_one, first,
}

-- One lookup of the seller, and one of its user, for each row.
unfoldable pub compose_row : Db → Listing → ListingResponse
compose_row db row = build row (map_some (lookup_row db) (find (by_id row.seller_id) db.sellers))

contains-distinct : (i : ℕ) (js : List ℕ) → contains i (distinct js) ≡ contains i js
unfolding contains distinct
contains-distinct i [] = refl
contains-distinct i (j ∷ js) = elim (Bool-cases (contains j js)) [
  | inr new ↦ ground (arith, contains-distinct i js)
  | inl old ↦ elim (Bool-cases (j == i)) [
    | inr other ↦ ground (arith, contains-distinct i js)
    | inl same ↦
        let e = subst (λ (x : ℕ). contains x js ≡ true) (==→eq j i same) old in
        ground (arith, e, contains-distinct i js)
  ]
]

map_get-absent :
    (db : Db) (i : ℕ) (rows : List Seller)
    → All (λ s. (s.id == i) ≡ false) rows
    → map_get i (map (lookup_row db) rows) ≡ none
unfolding map_get lookup_row
map_get-absent db i [] h = refl
map_get-absent db i (s ∷ rows) h = ground (arith, map_get-absent db i rows h.1)

-- With a primary key, the later of two entries is the only one.
map_get-find :
    (db : Db) (i : ℕ) (rows : List Seller)
    → UniqueIds rows
    → map_get i (map (lookup_row db) rows) ≡ map_some (lookup_row db) (find (by_id i) rows)
unfolding map_get lookup_row find
map_get-find db i [] u = refl
map_get-find db i (s ∷ rows) (apart, u) = elim (Bool-cases (s.id == i)) [
  | inr other ↦ ground (arith, map_get-find db i rows u)
  | inl same ↦
      let is_i = ==→eq s.id i same in
      let rest = map_get-absent db i rows (
        All-map_impl (λ (r : Seller). r.id ≢ s.id) (λ r. (r.id == i) ≡ false) (λ r ne. ground arith)
          rows apart) in
      ground (arith, rest)
]

select-All :
    {A : Type 0} (P : A → Type 0) (p : A → Bool) (xs : List A) → All P xs → All P (select p xs)
unfolding select
select-All P p [] h = tt
select-All P p (x ∷ xs) h = elim (Bool-cases (p x)) [
  | inl t ↦ rw t (h.0, select-All P p xs h.1)
  | inr f ↦ rw f (select-All P p xs h.1)
]

UniqueIds-select :
    (p : Seller → Bool) (rows : List Seller) → UniqueIds rows → UniqueIds (select p rows)
unfolding select
UniqueIds-select p [] u = tt
UniqueIds-select p (r ∷ rows) (apart, u) = elim (Bool-cases (p r)) [
  | inl t ↦ rw t (select-All _ p rows apart, UniqueIds-select p rows u)
  | inr f ↦ rw f (UniqueIds-select p rows u)
]

map_get-find_sellers :
    (db : Db) (i : ℕ) (ids : List ℕ)
    → UniqueIds db.sellers
    → contains i ids ≡ true
    → map_get i (find_sellers ids db) ≡ map_some (lookup_row db) (find (by_id i) db.sellers)
unfolding find_sellers
map_get-find_sellers db i ids u asked =
    map_get-find db i _ (UniqueIds-select _ db.sellers u)
    ∙ ap (map_some (lookup_row db)) (
        find-select (by_id i) (λ s. contains s.id ids)
          (λ r e. subst (λ (x : ℕ). contains x ids ≡ true) (sym (==→eq r.id i e)) asked) db.sellers)

-- The rows of a batch, each with a seller that the batch asks for.
map-build :
    (db : Db) (ids : List ℕ) (rows : List Listing)
    → UniqueIds db.sellers
    → All (λ r. contains r.seller_id ids ≡ true) rows
    → map (λ r. build r (map_get r.seller_id (find_sellers ids db))) rows
      ≡ map (compose_row db) rows
unfolding compose_row
map-build db ids [] u h = refl
map-build db ids (r ∷ rows) u h =
    ap₂ ◌∷◌ (ap (build r) (map_get-find_sellers db r.seller_id ids u h.0))
      (map-build db ids rows u h.1)

asked-All :
    (ids : List ℕ) (rows : List Listing)
    → ((i : ℕ) → contains i (map (λ r. r.seller_id) rows) ≡ true → contains i ids ≡ true)
    → All (λ r. contains r.seller_id ids ≡ true) rows
unfolding contains
asked-All ids [] f = tt
asked-All ids (r ∷ rows) f = (
  f r.seller_id (ground (arith, ==-refl r.seller_id)),
  asked-All ids rows (λ i h. f i (ground (arith, h))),
)

compose_many-batch :
    (db : Db) (rows : List Listing)
    → UniqueIds db.sellers
    → compose_many db rows ≡ map (compose_row db) rows
unfolding compose_many
compose_many-batch db [] u = refl
compose_many-batch db (r ∷ rows) u =
    let asked = map (λ (x : Listing). x.seller_id) (r ∷ rows) in
    map-build db (distinct asked) (r ∷ rows) u
      (asked-All (distinct asked) (r ∷ rows) (λ i h. contains-distinct i asked ∙ h))

-- The mapper's two queries for a whole batch answer what one lookup of the seller and one of its
-- user for each row would, in the order of the rows and whatever sellers repeat, if no two sellers
-- have one id; and a single row is the batch of one.
pub compose_many-rows :
    (db : Db) (rows : List Listing)
    → UniqueIds db.sellers
    → (compose_many db rows ≡ map (compose_row db) rows)
      × ((row : Listing) → compose_one db row ≡ some (compose_row db row))
unfolding compose_one
compose_many-rows db rows u =
    (compose_many-batch db rows u, λ row. ap first (compose_many-batch db (row ∷ []) u))
