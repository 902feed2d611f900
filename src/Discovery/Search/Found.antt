-- ===== src/Discovery/Search/Found.antt =====
-- What the pages of src/modules/discovery/search.service.ts hold.
use bomboli_server.Prelude.{
  ℕ, ◌+◌, ◌<◌, ◌≤◌, ◌≡◌, ◌∙◌, sym, ◌⊎◌, ◌↔◌, inl, inr, true, refl, ap, subst, String, Option, none,
  some, or_default, List, [], ◌∷◌, map, length, sum_by, sum_by-sort_with, select, take, drop,
  UniqueIds, by_columns, arith,
}
use bomboli_server.Db.{Db, Point, Listing, ListingCategory, seller_key}
use bomboli_server.Payments.Providers.{filled}
use bomboli_server.Listings.Read.Batch.{compose_row, compose_many-rows}
use bomboli_server.Discovery.{Engine, category_radius_meters}
use bomboli_server.Discovery.Rows.{
  IsOpen, reach, category_radius_meters-reach, is_public_iff, eq_category_iff, IsSelection,
  order_by-IsSelection,
}
use bomboli_server.Discovery.Search.{
  SearchInput, SortOption, least, matches_query, has_category, is_within, passes, order_clause,
  sort_of, ranked, search_rows, search_total, search,
}
use bomboli_server.Discovery.Search.Order.{Chosen, sort_of-Chosen, Precedes, order_clause-Precedes}

-- The smaller of two numbers.
abbrev pub IsLeast : ℕ → ℕ → ℕ → Type 0
IsLeast a b r = (r ≤ a) × (r ≤ b) × ((r ≡ a) ⊎ (r ≡ b))

-- A listing stands within a radius of a point: the one asked for, 30 km if none is, or the one of
-- its category, whichever is smaller.
abbrev pub IsClose : Engine → Point → Option ℕ → Listing → Type 0
IsClose engine p asked l =
    (radius : ℕ) × IsLeast (or_default 30000 asked) (reach l.category) radius
    × (engine.within l.location p radius ≡ true)

-- A hit: open to the public at the time of the search, and as the search asks for.
pub record IsHit (engine : Engine) (now : ℕ) (input : SearchInput) (l : Listing) : Type 0 where
  pub open_to_all : IsOpen now l
  pub matching :
      (filled input.q ≡ none)
      ⊎ ((q : String) × (filled input.q ≡ some q) × (engine.matches q l ≡ true))
  pub of_category : (input.category ≡ none) ⊎ (input.category ≡ some l.category)
  pub place :
      (input.point ≡ none)
      ⊎ ((p : Point) × (input.point ≡ some p) × IsClose engine p input.max_distance l)

least-IsLeast : (a b : ℕ) → IsLeast a b (least a b)
unfolding least
least-IsLeast a b = (ground arith, ground arith, ground arith)

IsLeast-least : (a b r : ℕ) → IsLeast a b r → r ≡ least a b
unfolding least
IsLeast-least a b r (p, q, e) = ground (arith, p, q, e)

module _ (engine : Engine) (now : ℕ) (input : SearchInput) (l : Listing) where
  matches_query_iff :
      (text : Option String)
      → (matches_query engine text l ≡ true)
        ↔ ((text ≡ none) ⊎ ((q : String) × (text ≡ some q) × (engine.matches q l ≡ true)))
  unfolding matches_query
  matches_query_iff none = ((λ h. inl refl), (λ h. refl))
  matches_query_iff (some q) = ((λ h. inr (q, refl, h)), (λ h. ground (arith, h)))

  has_category_iff :
      (asked : Option ListingCategory)
      → (has_category asked l ≡ true) ↔ ((asked ≡ none) ⊎ (asked ≡ some l.category))
  unfolding has_category
  has_category_iff none = ((λ h. inl refl), (λ h. refl))
  has_category_iff (some c) = (
    (λ h. inr (ap some (sym ((eq_category_iff l.category c).0 h)))),
    (λ h. (eq_category_iff l.category c).1 (ground (arith, h))),
  )

  close_within :
      (p : Point)
      → (some p ≡ none) ⊎ ((q : Point) × (some p ≡ some q) × IsClose engine q input.max_distance l)
      → is_within engine (some p) input.max_distance l ≡ true
  unfolding is_within
  close_within p (inl n) = absurd (ground (arith, n))
  close_within p (inr (q, e, (r, smallest, h))) =
      let same : p ≡ q = ground (arith, e) in
      let radius =
        IsLeast-least (or_default 30000 input.max_distance) (reach l.category) r smallest in
      let asked = or_default 30000 input.max_distance in
      let its = radius ∙ ap (least asked) (sym (category_radius_meters-reach l.category)) in
      rw same (subst (λ (x : ℕ). engine.within l.location q x ≡ true) its h)

  is_within_iff :
      (place : Option Point)
      → (is_within engine place input.max_distance l ≡ true) ↔ (
          (place ≡ none) ⊎ ((p : Point) × (place ≡ some p) × IsClose engine p input.max_distance l))
  unfolding is_within
  is_within_iff none = ((λ h. inl refl), (λ h. refl))
  is_within_iff (some p) =
      let cap = category_radius_meters-reach l.category in
      let asked = or_default 30000 input.max_distance in
      (
        (λ h. inr (
          p,
          refl,
          (
            least asked (category_radius_meters l.category),
            rw (← cap) (least-IsLeast asked (category_radius_meters l.category)),
            h,
          ),
        )),
        close_within p,
      )

  passes_iff : (passes engine now input l ≡ true) ↔ IsHit engine now input l
  unfolding passes
  passes_iff =
      let shown = is_public_iff now l in
      let said = matches_query_iff (filled input.q) in
      let kind = has_category_iff input.category in
      let near = is_within_iff input.point in
      (
        (λ h. record {
          open_to_all = shown.0 (ground (arith, h));
          matching = said.0 (ground (arith, h));
          of_category = kind.0 (ground (arith, h));
          place = near.0 (ground (arith, h));
        }),
        (λ hit. ground (
          arith,
          shown.1 hit.open_to_all,
          said.1 hit.matching,
          kind.1 hit.of_category,
          near.1 hit.place,
        )),
      )

length-sum_by : (xs : List Listing) → length xs ≡ sum_by (λ l. 1) xs
unfolding sum_by
length-sum_by [] = refl
length-sum_by (x ∷ xs) = omega (arith, length-sum_by xs)

module _ (engine : Engine) (query now : ℕ) (input : SearchInput) (db : Db) where
  total-ranked : search_total engine now input db ≡ length (ranked engine query now input db)
  unfolding search_total ranked
  total-ranked =
      let kept = select (passes engine now input) db.listings in
      length-sum_by kept
      ∙ sym (
          sum_by-sort_with (by_columns (order_clause engine query (sort_of input) input)) (λ l. 1)
            kept)
      ∙ sym (length-sum_by (ranked engine query now input db))

  -- A search gives a page of its hits: those of its listings that are published, neither deleted nor
  -- expired, match the text and the category if they are given, and if a point is given, stand within
  -- the smaller of the radius asked for (30 km if none is) and the radius of their category. All of
  -- them are hits, as often as they are in the table, in the order that is asked for: by price and
  -- then the newest first, the newest first, the nearest first, or the best match first (which is
  -- what a search with a text and no order gets). The page holds as many as asked for from the
  -- offset on, each composed with its seller; the total counts the hits; and there is more exactly
  -- if the page ends before them. This holds if no two sellers have one id.
  pub search-IsHit :
      UniqueIds db.sellers
      → let r = search engine query now input db in
        (hits : List Listing) × (sort : SortOption) × Chosen input sort
        × IsSelection (IsHit engine now input) (Precedes engine input sort) db.listings hits
        × (r.results ≡ map (compose_row db) (take input.limit (drop input.offset hits)))
        × (r.total ≡ length hits)
        × ((r.has_more ≡ true) ↔ (input.offset + length r.results < length hits))
  unfolding search search_rows ranked
  search-IsHit u =
      let sort = sort_of input in
      let hits = ranked engine query now input db in
      let page = take input.limit (drop input.offset hits) in
      let counted = total-ranked in
      (
        hits,
        sort,
        sort_of-Chosen input,
        order_by-IsSelection (IsHit engine now input) (Precedes engine input sort)
            (passes engine now input) (order_clause engine query sort input)
            (passes_iff engine now input) (order_clause-Precedes engine query input sort)
            db.listings,
        (compose_many-rows db page u).0,
        counted,
        rw counted ((λ h. ground (arith, h)), (λ h. ground (arith, h))),
      )
