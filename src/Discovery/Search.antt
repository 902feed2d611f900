-- ===== src/Discovery/Search.antt =====
-- The search: `DiscoveryRepository.search` of src/modules/discovery/discovery.repository.ts and
-- search.service.ts. A radius is in meters.
pub mod Order
pub mod Found
use bomboli_server.Prelude.{
  ℕ, ◌+◌, ◌*◌, ltb, leb, ◌&&◌, Bool, true, false, String, Option, none, some, or_default, is_none,
  List, [], ◌∷◌, length, select, take, drop, Column, asc, desc, order_by, if◌then◌else◌,
}
use bomboli_server.Db.{Db, Point, Listing, ListingCategory}
use bomboli_server.Payments.Providers.{filled}
use bomboli_server.Listings.Read.{ListingResponse, compose_many}
use bomboli_server.Discovery.{Engine, eq_category, category_radius_meters, is_public}

-- `SORT_VALUES`
pub data SortOption : Type 0 where
  relevance newest price_asc price_desc distance : SortOption

-- `SearchInput`; the schema of the request asks for both coordinates or none.
pub record SearchInput : Type 0 where
  pub q : Option String
  pub category : Option ListingCategory
  pub max_distance : Option ℕ
  pub point : Option Point
  pub sort : Option SortOption
  pub offset : ℕ
  pub limit : ℕ

-- `SearchResponseDto`
pub record SearchResponse : Type 0 where
  pub results : List ListingResponse
  pub total : ℕ
  pub offset : ℕ
  pub limit : ℕ
  pub has_more : Bool

-- `LEAST(a, b)`
unfoldable pub least : ℕ → ℕ → ℕ
least a b = if leb a b then a else b

unfoldable pub has_category : Option ListingCategory → Listing → Bool
has_category none l = true
has_category (some c) l = eq_category l.category c

-- `"publishedAt" DESC` puts the rows that have none first, `DESC NULLS LAST` puts them last.
abbrev pub published_desc : List (Column Listing) → List (Column Listing)
published_desc ks =
    desc (λ l. if is_none l.published_at then 1 else 0)
    ∷ desc (λ l. or_default 0 l.published_at)
    ∷ ks

abbrev pub published_desc_nulls_last : List (Column Listing) → List (Column Listing)
published_desc_nulls_last ks =
    asc (λ l. if is_none l.published_at then 1 else 0)
    ∷ desc (λ l. or_default 0 l.published_at)
    ∷ ks

-- `hasQuery ? 'relevance' : 'newest'`
unfoldable pub default_sort : Option String → SortOption
default_sort none = newest
default_sort (some _) = relevance

unfoldable pub sort_of : SearchInput → SortOption
unfolding filled default_sort
sort_of input = or_default (default_sort (filled input.q)) input.sort

module _ (engine : Engine) where
  unfoldable pub matches_query : Option String → Listing → Bool
  matches_query none l = true
  matches_query (some q) l = engine.matches q l

  -- The radius that is asked for, 30 km by default, and that of the category.
  unfoldable pub is_within : Option Point → Option ℕ → Listing → Bool
  unfolding least
  is_within none max_distance l = true
  is_within (some p) max_distance l =
      engine.within l.location p
        (least (or_default 30000 max_distance) (category_radius_meters l.category))

  -- `WHERE`
  unfoldable pub passes : ℕ → SearchInput → Listing → Bool
  unfolding filled matches_query has_category is_within
  passes now input l =
      is_public now l
      && matches_query (filled input.q) l
      && has_category input.category l
      && is_within input.point input.max_distance l

  unfoldable pub search_total : ℕ → SearchInput → Db → ℕ
  unfolding passes
  search_total now input db = length (select (passes now input) db.listings)

-- The rows that one query gives, by its number.
module _ (engine : Engine) (query : ℕ) where
  abbrev pub ties : List (Column Listing)
  ties = asc (engine.tie query) ∷ []

  unfoldable pub by_distance : Option Point → List (Column Listing)
  by_distance none = ties
  by_distance (some p) = asc (λ l. engine.distance l.location p) ∷ ties

  unfoldable pub by_relevance : Option String → List (Column Listing)
  by_relevance none = published_desc_nulls_last ties
  by_relevance (some q) = desc (engine.rank q) ∷ published_desc ties

  -- `orderClause`
  unfoldable pub order_clause : SortOption → SearchInput → List (Column Listing)
  unfolding filled by_distance by_relevance
  order_clause relevance input = by_relevance (filled input.q)
  order_clause newest input = published_desc_nulls_last ties
  order_clause price_asc input = asc (λ l. l.price_cents) ∷ published_desc ties
  order_clause price_desc input = desc (λ l. l.price_cents) ∷ published_desc ties
  order_clause distance input = by_distance input.point

  -- The rows without `LIMIT` and `OFFSET`.
  unfoldable pub ranked : ℕ → SearchInput → Db → List Listing
  unfolding passes order_clause sort_of
  ranked now input db =
      order_by (order_clause (sort_of input) input) (select (passes engine now input) db.listings)

  unfoldable pub search_rows : ℕ → SearchInput → Db → List Listing
  unfolding ranked
  search_rows now input db = take input.limit (drop input.offset (ranked now input db))

  unfoldable pub search : ℕ → SearchInput → Db → SearchResponse
  unfolding search_rows search_total
  search now input db =
      let results = compose_many db (search_rows now input db) in
      let total = search_total engine now input db in
      record {
        results = results;
        total = total;
        offset = input.offset;
        limit = input.limit;
        has_more = ltb (input.offset + length results) total;
      }
