-- ===== src/Prelude/Sort.antt =====
-- `ORDER BY`: rows sorted by a comparison, such as one by several columns in turn.
use Prim.Native.Nat.{ℕ, zero, suc, ◌+◌, ◌≤◌, ◌<◌}
use mathlib.Core.Path.{◌≡◌}
use mathlib.Core.List.{List, [], ◌∷◌}
use mathlib.Core.Bool.{Bool, true, false}
use native.Mathlib.Omega.{arith}
use mathlib.Core.Logic.{◌⊎◌, inl, inr}
use bomboli_server.Prelude.Tests.{ltb, ◌==◌, if◌then◌else◌, Bool-cases}
use bomboli_server.Prelude.Lists.{All, All-map_impl, sum_by, take, drop, take-All}

module _ {A : Type 0} where
  -- Each element against all that follow.
  abbrev pub Pairwise : (A → A → Type 0) → List A → Type 0
  Pairwise Q [] = Unit
  Pairwise Q (x ∷ xs) = All (Q x) xs × Pairwise Q xs

-- `before a b` says that `a` may stand before `b`.
module _ {A : Type 0} (before : A → A → Bool) where
  unfoldable pub insert_with : A → List A → List A
  insert_with a [] = a ∷ []
  insert_with a (x ∷ xs) =
      let rest = insert_with a xs in if before a x then a ∷ x ∷ xs else x ∷ rest

  unfoldable pub sort_with : List A → List A
  unfolding insert_with
  sort_with [] = []
  sort_with (x ∷ xs) = insert_with x (sort_with xs)

  abbrev pub IsOrderedBy : List A → Type 0
  IsOrderedBy [] = Unit
  IsOrderedBy (x ∷ xs) = All (λ y. before x y ≡ true) xs × IsOrderedBy xs

  pub take-IsOrderedBy : (n : ℕ) (xs : List A) → IsOrderedBy xs → IsOrderedBy (take n xs)
  unfolding take
  take-IsOrderedBy zero xs h = tt
  take-IsOrderedBy (suc n) [] h = tt
  take-IsOrderedBy (suc n) (x ∷ xs) h =
      (take-All (λ (y : A). before x y ≡ true) n xs h.0, take-IsOrderedBy n xs h.1)

  pub drop-IsOrderedBy : (n : ℕ) (xs : List A) → IsOrderedBy xs → IsOrderedBy (drop n xs)
  unfolding drop
  drop-IsOrderedBy zero xs h = h
  drop-IsOrderedBy (suc n) [] h = tt
  drop-IsOrderedBy (suc n) (x ∷ xs) h = drop-IsOrderedBy n xs h.1

  pub IsOrderedBy-Pairwise :
      (Q : A → A → Type 0)
      → ((a b : A) → before a b ≡ true → Q a b)
      → (xs : List A) → IsOrderedBy xs
      → Pairwise Q xs
  IsOrderedBy-Pairwise Q means [] h = tt
  IsOrderedBy-Pairwise Q means (x ∷ xs) h = (
    All-map_impl (λ (y : A). before x y ≡ true) (Q x) (λ y. means x y) xs h.0,
    IsOrderedBy-Pairwise Q means xs h.1,
  )

  insert_with-All :
      (P : A → Type 0) (a : A) (xs : List A) → P a → All P xs → All P (insert_with a xs)
  unfolding insert_with
  insert_with-All P a [] p h = (p, tt)
  insert_with-All P a (x ∷ xs) p h = elim (Bool-cases (before a x)) [
    | inl t ↦ rw t (p, h)
    | inr f ↦ rw f (h.0, insert_with-All P a xs p h.1)
  ]

  pub sort_with-All : (P : A → Type 0) (xs : List A) → All P xs → All P (sort_with xs)
  unfolding sort_with
  sort_with-All P [] h = tt
  sort_with-All P (x ∷ xs) h = insert_with-All P x (sort_with xs) h.0 (sort_with-All P xs h.1)

  sum_by-insert_with :
      (f : A → ℕ) (a : A) (xs : List A) → sum_by f (insert_with a xs) ≡ f a + sum_by f xs
  unfolding insert_with sum_by
  sum_by-insert_with f a [] = omega arith
  sum_by-insert_with f a (x ∷ xs) = ground (arith, sum_by-insert_with f a xs)

  -- No row is lost or doubled, counted by any measure.
  pub sum_by-sort_with : (f : A → ℕ) (xs : List A) → sum_by f (sort_with xs) ≡ sum_by f xs
  unfolding sort_with sum_by
  sum_by-sort_with f [] = omega arith
  sum_by-sort_with f (x ∷ xs) =
      omega (arith, sum_by-insert_with f x (sort_with xs), sum_by-sort_with f xs)

  module _ (total : (a b : A) → before a b ≡ false → before b a ≡ true)
      (trans : (a b c : A) → before a b ≡ true → before b c ≡ true → before a c ≡ true) where
    insert_with-IsOrderedBy :
        (a : A) (xs : List A) → IsOrderedBy xs → IsOrderedBy (insert_with a xs)
    unfolding insert_with
    insert_with-IsOrderedBy a [] h = (tt, tt)
    insert_with-IsOrderedBy a (x ∷ xs) h = elim (Bool-cases (before a x)) [
      | inl t ↦ rw t (
        (
          t,
          All-map_impl (λ (y : A). before x y ≡ true) (λ y. before a y ≡ true)
              (λ y p. trans a x y t p) xs h.0,
        ),
        h,
      )
      | inr f ↦ rw f (
        insert_with-All (λ (y : A). before x y ≡ true) a xs (total a x f) h.0,
        insert_with-IsOrderedBy a xs h.1,
      )
    ]

    pub sort_with-IsOrderedBy : (xs : List A) → IsOrderedBy (sort_with xs)
    unfolding sort_with
    sort_with-IsOrderedBy [] = tt
    sort_with-IsOrderedBy (x ∷ xs) =
        insert_with-IsOrderedBy x (sort_with xs) (sort_with-IsOrderedBy xs)

-- A column of an `ORDER BY`, with its direction.
pub data Column (A : Type 0) : Type 0 where
  asc desc : (A → ℕ) → Column A

module _ {A : Type 0} where
  -- `a` is before `b` by the columns in turn.
  unfoldable pub by_columns : List (Column A) → A → A → Bool
  by_columns [] a b = true
  by_columns (asc key ∷ ks) a b =
      let rest = by_columns ks a b in
      if ltb (key a) (key b) then true else if key a == key b then rest else false
  by_columns (desc key ∷ ks) a b =
      let rest = by_columns ks a b in
      if ltb (key b) (key a) then true else if key a == key b then rest else false

  by_columns-total :
      (ks : List (Column A)) (a b : A) → by_columns ks a b ≡ false → by_columns ks b a ≡ true
  unfolding by_columns
  by_columns-total [] a b h = ground arith
  by_columns-total (asc key ∷ ks) a b h = ground (arith, by_columns-total ks a b)
  by_columns-total (desc key ∷ ks) a b h = ground (arith, by_columns-total ks a b)

  by_columns_trans :
      (ks : List (Column A)) (a b c : A)
      → by_columns ks a b ≡ true
      → by_columns ks b c ≡ true
      → by_columns ks a c ≡ true
  unfolding by_columns
  by_columns_trans [] a b c h g = ground arith
  by_columns_trans (asc key ∷ ks) a b c h g = ground (arith, by_columns_trans ks a b c)
  by_columns_trans (desc key ∷ ks) a b c h g = ground (arith, by_columns_trans ks a b c)

  pub asc-step :
      (key : A → ℕ) (ks : List (Column A)) (a b : A)
      → by_columns (asc key ∷ ks) a b ≡ true
      → (key a < key b) ⊎ ((key a ≡ key b) × (by_columns ks a b ≡ true))
  unfolding by_columns
  asc-step key ks a b h = ground arith

  pub desc-step :
      (key : A → ℕ) (ks : List (Column A)) (a b : A)
      → by_columns (desc key ∷ ks) a b ≡ true
      → (key b < key a) ⊎ ((key a ≡ key b) × (by_columns ks a b ≡ true))
  unfolding by_columns
  desc-step key ks a b h = ground arith

  -- `ORDER BY` the columns.
  abbrev pub order_by : List (Column A) → List A → List A
  order_by ks = sort_with (by_columns ks)

  pub order_by-IsOrderedBy :
      (ks : List (Column A)) (xs : List A) → IsOrderedBy (by_columns ks) (order_by ks xs)
  order_by-IsOrderedBy ks xs =
      sort_with-IsOrderedBy (by_columns ks) (by_columns-total ks) (by_columns_trans ks) xs

  abbrev pub IsSorted : (A → ℕ) → List A → Type 0
  IsSorted key [] = Unit
  IsSorted key (x ∷ xs) = All (λ y. key y ≤ key x) xs × IsSorted key xs

  -- `ORDER BY` one column, the largest first.
  abbrev pub sort_by : (A → ℕ) → List A → List A
  sort_by key = order_by (desc key ∷ [])

  by_columns-le : (key : A → ℕ) (x y : A) → by_columns (desc key ∷ []) x y ≡ true → key y ≤ key x
  unfolding by_columns
  by_columns-le key x y p = ground arith

  ordered-IsSorted :
      (key : A → ℕ) (xs : List A) → IsOrderedBy (by_columns (desc key ∷ [])) xs → IsSorted key xs
  ordered-IsSorted key [] h = tt
  ordered-IsSorted key (x ∷ xs) h = (
    All-map_impl (λ (y : A). by_columns (desc key ∷ []) x y ≡ true) (λ y. key y ≤ key x)
        (λ y p. by_columns-le key x y p) xs h.0,
    ordered-IsSorted key xs h.1,
  )

  pub sort_by-IsSorted : (key : A → ℕ) (xs : List A) → IsSorted key (sort_by key xs)
  sort_by-IsSorted key xs =
      ordered-IsSorted key (sort_by key xs) (order_by-IsOrderedBy (desc key ∷ []) xs)
