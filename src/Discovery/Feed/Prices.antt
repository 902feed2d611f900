-- ===== src/Discovery/Feed/Prices.antt =====
-- The prices that `category_quartiles` of src/modules/discovery/discovery.repository.ts compares with.
use bomboli_server.Prelude.{
  ℕ, ◌+◌, ◌≤◌, ◌≡◌, ◌∙◌, ◌↔◌, ◌&&◌, inl, inr, refl, ap₂, Bool, true, none, List, [], ◌∷◌, map,
  select, sum_by, sum_by-select, sum_by-sort_with, Pairwise, IsOrderedBy-Pairwise, by_columns,
  order_by-IsOrderedBy, asc, asc-step, if◌then◌else◌, arith, Option-cases,
}
use bomboli_server.Db.{Db, Listing, ListingCategory, published}
use bomboli_server.Listings.Read.{is_listed}
use bomboli_server.Discovery.{eq_category}
use bomboli_server.Discovery.Rows.{eq_category_iff}
use bomboli_server.Discovery.Feed.{category_prices}

-- The prices of the listings of a category that are published and not deleted, each as often as it
-- is there, in ascending order.
pub record ArePrices (db : Db) (c : ListingCategory) (prices : List ℕ) : Type 0 where
  pub test : Listing → Bool
  pub exact :
      (l : Listing)
      → (test l ≡ true) ↔ ((l.status ≡ published) × (l.deleted_at ≡ none) × (l.category ≡ c))
  pub complete :
      (f : ℕ → ℕ)
      → sum_by f prices ≡ sum_by (λ l. if test l then f l.price_cents else 0) db.listings
  pub ascending : Pairwise (λ x y. x ≤ y) prices

sum_by-map :
    (f : ℕ → ℕ) (g : Listing → ℕ) (xs : List Listing)
    → sum_by f (map g xs) ≡ sum_by (λ x. f (g x)) xs
unfolding sum_by
sum_by-map f g [] = refl
sum_by-map f g (x ∷ xs) = ap₂ (◌+◌) refl (sum_by-map f g xs)

ascending_le : (x y : ℕ) → by_columns (asc (λ (p : ℕ). p) ∷ []) x y ≡ true → x ≤ y
ascending_le x y h = elim (asc-step (λ (p : ℕ). p) [] x y h) [
  | inl less ↦ omega (arith, less)
  | inr (same, _) ↦ omega (arith, same)
]

priced_iff :
    (c : ListingCategory) (l : Listing)
    → ((is_listed l && eq_category l.category c) ≡ true)
      ↔ ((l.status ≡ published) × (l.deleted_at ≡ none) × (l.category ≡ c))
unfolding is_listed
priced_iff c l =
    let kind = eq_category_iff l.category c in
    (
      (λ h. (
        ground (arith, h),
        ground (arith, h, Option-cases l.deleted_at),
        kind.0 (ground (arith, h)),
      )),
      (λ h. ground (arith, h.0, h.1, kind.1 h.2)),
    )

pub category_prices-ArePrices :
    (db : Db) (c : ListingCategory) → ArePrices db c (category_prices c db)
unfolding category_prices
category_prices-ArePrices db c =
    let test = λ (l : Listing). is_listed l && eq_category l.category c in
    let ks = asc (λ (p : ℕ). p) ∷ [] in
    let kept = map (λ (l : Listing). l.price_cents) (select test db.listings) in
    record {
      test = test;
      exact = priced_iff c;
      complete = λ f.
          sum_by-sort_with (by_columns ks) f kept
          ∙ sum_by-map f (λ l. l.price_cents) (select test db.listings)
          ∙ sum_by-select (λ l. f l.price_cents) test db.listings;
      ascending =
          IsOrderedBy-Pairwise (by_columns ks) (λ x y. x ≤ y) ascending_le _
            (order_by-IsOrderedBy ks kept);
    }
