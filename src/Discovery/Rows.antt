-- ===== src/Discovery/Rows.antt =====
-- What the queries of src/modules/discovery/discovery.repository.ts ask of a row, and what they give,
-- said without their SQL.
use bomboli_server.Prelude.{
  ℕ, ◌<◌, ◌≡◌, ◌∙◌, ◌⊎◌, ◌↔◌, inl, inr, refl, Bool, true, none, some, List, select, All,
  All-map_impl, select-passes, sum_by, sum_by-select, sort_with-All, sum_by-sort_with, Pairwise,
  IsOrderedBy-Pairwise, by_columns, order_by, order_by-IsOrderedBy, Column, if◌then◌else◌, arith,
  Option-cases,
}
use bomboli_server.Db.{
  Point, Listing, ListingCategory, cosmetique, textile, seconde_main, agricole, services, autres,
  published,
}
use bomboli_server.Discovery.{
  Engine, max_radius_km, category_radius_meters, is_public, is_near, eq_category,
}

-- How far a listing is offered, in meters: 15 km if it is second-hand, 20 km a service, 30 km what
-- is grown, and 25 km anything else.
abbrev pub reach : ListingCategory → ℕ
reach seconde_main = 15000
reach services = 20000
reach agricole = 30000
reach _ = 25000

-- A listing is open to the public: published, not deleted, and not expired.
pub record IsOpen (now : ℕ) (l : Listing) : Type 0 where
  pub is_listed : l.status ≡ published
  pub not_deleted : l.deleted_at ≡ none
  pub alive : (l.expires_at ≡ none) ⊎ ((t : ℕ) × (l.expires_at ≡ some t) × (now < t))

abbrev pub InReach : Engine → Point → Listing → Type 0
InReach engine p l = engine.within l.location p (reach l.category) ≡ true

pub category_radius_meters-reach : (c : ListingCategory) → category_radius_meters c ≡ reach c
unfolding category_radius_meters max_radius_km
category_radius_meters-reach cosmetique = refl
category_radius_meters-reach textile = refl
category_radius_meters-reach seconde_main = refl
category_radius_meters-reach agricole = refl
category_radius_meters-reach services = refl
category_radius_meters-reach autres = refl

is_public-IsOpen : (now : ℕ) (l : Listing) → is_public now l ≡ true → IsOpen now l
unfolding is_public
is_public-IsOpen now l h = elim (Option-cases l.expires_at) [
  | inl e ↦ record {
    is_listed = ground (arith, e);
    not_deleted = ground (arith, e, Option-cases l.deleted_at);
    alive = inl e;
  }
  | inr (t, e) ↦ record {
    is_listed = ground (arith, e);
    not_deleted = ground (arith, e, Option-cases l.deleted_at);
    alive = inr (t, e, ground (arith, e));
  }
]

IsOpen-is_public : (now : ℕ) (l : Listing) → IsOpen now l → is_public now l ≡ true
unfolding is_public
IsOpen-is_public now l o = ground (arith, o.is_listed, o.not_deleted, o.alive)

pub is_public_iff : (now : ℕ) (l : Listing) → (is_public now l ≡ true) ↔ IsOpen now l
is_public_iff now l = (is_public-IsOpen now l, IsOpen-is_public now l)

pub is_near_iff :
    (engine : Engine) (p : Point) (l : Listing) → (is_near engine p l ≡ true) ↔ InReach engine p l
unfolding is_near
is_near_iff engine p l = rw (← category_radius_meters-reach l.category) ((λ h. h), (λ h. h))

pub eq_category_iff : (a b : ListingCategory) → (eq_category a b ≡ true) ↔ (a ≡ b)
eq_category_iff a b = ((λ h. ground arith), (λ h. ground arith))

-- The rows of a table that have a property, every one of them as often as it is there, each in its
-- place before all that follow.
pub record IsSelection (P : Listing → Type 0) (Q : Listing → Listing → Type 0)
    (rows hits : List Listing) : Type 0 where
  pub test : Listing → Bool
  pub exact : (l : Listing) → (test l ≡ true) ↔ P l
  pub pass : All P hits
  pub complete : (f : Listing → ℕ) → sum_by f hits ≡ sum_by (λ l. if test l then f l else 0) rows
  pub in_order : Pairwise Q hits

pub order_by-IsSelection :
    (P : Listing → Type 0) (Q : Listing → Listing → Type 0) (p : Listing → Bool)
    (ks : List (Column Listing))
    → ((l : Listing) → (p l ≡ true) ↔ P l)
    → ((a b : Listing) → by_columns ks a b ≡ true → Q a b)
    → (rows : List Listing) → IsSelection P Q rows (order_by ks (select p rows))
order_by-IsSelection P Q p ks exact means rows =
    let kept = select p rows in
    record {
      test = p;
      exact = exact;
      pass = sort_with-All (by_columns ks) P kept (
          All-map_impl (λ (l : Listing). p l ≡ true) P (λ l h. (exact l).0 h) kept
            (select-passes p rows));
      complete = λ f. sum_by-sort_with (by_columns ks) f kept ∙ sum_by-select f p rows;
      in_order =
          IsOrderedBy-Pairwise (by_columns ks) Q means (order_by ks kept)
            (order_by-IsOrderedBy ks kept);
    }
