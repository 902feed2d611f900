-- ===== src/Discovery/Search/Order.antt =====
-- The orders of a search, said without SQL: the `orderClause` of
-- src/modules/discovery/discovery.repository.ts.
use bomboli_server.Prelude.{
  ℕ, ◌<◌, ◌≤◌, ◌≡◌, ◌⊎◌, inl, inr, true, String, Option, none, some, List, Column, by_columns,
  asc-step, desc-step, arith, Option-cases,
}
use bomboli_server.Db.{Point, Listing}
use bomboli_server.Payments.Providers.{filled}
use bomboli_server.Discovery.{Engine}
use bomboli_server.Discovery.Search.{
  SearchInput, SortOption, relevance, newest, price_asc, price_desc, distance, published_desc,
  published_desc_nulls_last, default_sort, sort_of, by_distance, by_relevance, order_clause,
}

-- Published at the same time or later.
abbrev pub NotOlder : Listing → Listing → Type 0
NotOlder l m = (s : ℕ) × (t : ℕ) × (l.published_at ≡ some s) × (m.published_at ≡ some t) × (t ≤ s)

-- The newer first, and those without a date of publication last, or first.
abbrev pub UndatedLast : Listing → Listing → Type 0
UndatedLast l m = (m.published_at ≡ none) ⊎ NotOlder l m

abbrev pub UndatedFirst : Listing → Listing → Type 0
UndatedFirst l m = (l.published_at ≡ none) ⊎ NotOlder l m

-- The nearer first, if there is a point.
abbrev pub Nearer : Engine → Option Point → Listing → Listing → Type 0
Nearer engine none l m = Unit
Nearer engine (some p) l m = engine.distance l.location p ≤ engine.distance m.location p

-- The better match first, if there is a text.
abbrev pub Better : Engine → Option String → Listing → Listing → Type 0
Better engine none l m = UndatedLast l m
Better engine (some q) l m =
    (engine.rank q m < engine.rank q l) ⊎ ((engine.rank q l ≡ engine.rank q m) × UndatedFirst l m)

-- `l` stands before `m`.
abbrev pub Precedes : Engine → SearchInput → SortOption → Listing → Listing → Type 0
Precedes engine input relevance l m = Better engine (filled input.q) l m
Precedes engine input newest l m = UndatedLast l m
Precedes engine input price_asc l m =
    (l.price_cents < m.price_cents) ⊎ ((l.price_cents ≡ m.price_cents) × UndatedFirst l m)
Precedes engine input price_desc l m =
    (m.price_cents < l.price_cents) ⊎ ((l.price_cents ≡ m.price_cents) × UndatedFirst l m)
Precedes engine input distance l m = Nearer engine input.point l m

-- The order that a search takes: the one it asks for, or else by relevance if it has a text, and
-- the newest first if it has none.
abbrev pub Chosen : SearchInput → SortOption → Type 0
Chosen input sort =
    (input.sort ≡ some sort)
    ⊎ ((input.sort ≡ none)
        × (((filled input.q ≡ none) × (sort ≡ newest))
            ⊎ ((q : String) × (filled input.q ≡ some q) × (sort ≡ relevance))))

pub sort_of-Chosen : (input : SearchInput) → Chosen input (sort_of input)
unfolding sort_of default_sort
sort_of-Chosen input = elim (Option-cases input.sort) [
  | inr (x, e) ↦ inl (ground (arith, e))
  | inl e ↦ elim (Option-cases (filled input.q)) [
    | inl n ↦ inr (e, inl (n, ground (arith, e, n)))
    | inr (q, n) ↦ inr (e, inr (q, n, ground (arith, e, n)))
  ]
]

pub published_desc_nulls_last-UndatedLast :
    (ks : List (Column Listing)) (l m : Listing)
    → by_columns (published_desc_nulls_last ks) l m ≡ true
    → UndatedLast l m
unfolding by_columns
published_desc_nulls_last-UndatedLast ks l m h = elim (Option-cases m.published_at) [
  | inl n ↦ inl n
  | inr (t, e) ↦ elim (Option-cases l.published_at) [
    | inl n ↦ absurd (ground (arith, e, n))
    | inr (s, f) ↦ inr (s, t, f, e, ground (arith, e, f))
  ]
]

published_desc-UndatedFirst :
    (ks : List (Column Listing)) (l m : Listing)
    → by_columns (published_desc ks) l m ≡ true
    → UndatedFirst l m
unfolding by_columns
published_desc-UndatedFirst ks l m h = elim (Option-cases l.published_at) [
  | inl n ↦ inl n
  | inr (s, f) ↦ elim (Option-cases m.published_at) [
    | inl n ↦ absurd (ground (arith, f, n))
    | inr (t, e) ↦ inr (s, t, f, e, ground (arith, e, f))
  ]
]

module _ (engine : Engine) (query : ℕ) (input : SearchInput) where
  by_distance-Nearer :
      (place : Option Point) (l m : Listing)
      → by_columns (by_distance engine query place) l m ≡ true
      → Nearer engine place l m
  unfolding by_distance
  by_distance-Nearer none l m h = tt
  by_distance-Nearer (some p) l m h =
      elim (asc-step (λ (x : Listing). engine.distance x.location p) _ l m h) [
        | inl near ↦ omega (arith, near)
        | inr (same, _) ↦ omega (arith, same)
      ]

  by_relevance-Better :
      (text : Option String) (l m : Listing)
      → by_columns (by_relevance engine query text) l m ≡ true
      → Better engine text l m
  unfolding by_relevance
  by_relevance-Better none l m h = published_desc_nulls_last-UndatedLast _ l m h
  by_relevance-Better (some q) l m h = elim (desc-step (engine.rank q) _ l m h) [
    | inl better ↦ inl better
    | inr (same, later) ↦ inr (same, published_desc-UndatedFirst _ l m later)
  ]

  pub order_clause-Precedes :
      (sort : SortOption) (l m : Listing)
      → by_columns (order_clause engine query sort input) l m ≡ true
      → Precedes engine input sort l m
  unfolding order_clause
  order_clause-Precedes relevance l m h = by_relevance-Better (filled input.q) l m h
  order_clause-Precedes newest l m h = published_desc_nulls_last-UndatedLast _ l m h
  order_clause-Precedes price_asc l m h = elim (asc-step (λ (x : Listing). x.price_cents) _ l m h) [
    | inl cheaper ↦ inl cheaper
    | inr (same, later) ↦ inr (same, published_desc-UndatedFirst _ l m later)
  ]
  order_clause-Precedes price_desc l m h =
      elim (desc-step (λ (x : Listing). x.price_cents) _ l m h) [
        | inl dearer ↦ inl dearer
        | inr (same, later) ↦ inr (same, published_desc-UndatedFirst _ l m later)
      ]
  order_clause-Precedes distance l m h = by_distance-Nearer input.point l m h
