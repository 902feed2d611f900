-- ===== src/Prelude/Table.antt =====
-- A database table as a list of rows: lookup, update and delete by a test, as the queries do
-- (`findUnique`, `UPDATE … WHERE`, `DELETE … WHERE`), with their laws.
use Prim.Native.Nat.{ℕ}
use mathlib.Core.Path.{◌≡◌, refl, subst}
use mathlib.Core.Logic.{◌≢◌, inl, inr}
use mathlib.Core.Bool.{Bool, true, false}
use mathlib.Core.Option.{Option, none, some}
use mathlib.Core.List.{List, [], ◌∷◌, ◌++◌}
use native.Mathlib.Omega.{arith}
use bomboli_server.Prelude.Tests.{if◌then◌else◌, ◌==◌, ==→eq, ==-refl, Bool-cases}
use bomboli_server.Prelude.Lists.{All}

-- A row type with an `id` column.
pub record Keyed (R : Type 0) : Type 0 where
  pub id_of : R → ℕ

abbrev pub by_id : {R : Type 0} ⦃k : Keyed R⦄ → ℕ → R → Bool
by_id ⦃k⦄ i r = k.id_of r == i

abbrev pub map_some {ℓ κ} : {A : Type ℓ} {B : Type κ} → (A → B) → Option A → Option B
map_some f none = none
map_some f (some a) = some (f a)

module _ {R : Type 0} where
  -- The first row that passes the test.
  unfoldable pub find : (R → Bool) → List R → Option R
  find p [] = none
  find p (r ∷ rows) = if p r then some r else find p rows

  -- The rows that pass the test, in order.
  unfoldable pub select : (R → Bool) → List R → List R
  select p [] = []
  select p (r ∷ rows) = let rest = select p rows in if p r then r ∷ rest else rest

  -- `UPDATE … SET f WHERE p`
  unfoldable pub update : (R → Bool) → (R → R) → List R → List R
  update p f [] = []
  update p f (r ∷ rows) = (if p r then f r else r) ∷ update p f rows

  -- `DELETE … WHERE p`
  unfoldable pub delete : (R → Bool) → List R → List R
  delete p [] = []
  delete p (r ∷ rows) = let rest = delete p rows in if p r then rest else r ∷ rest

  pub find-update :
      (p q : R → Bool) (f : R → R)
      → ((r : R) → p (f r) ≡ p r)
      → (rows : List R)
      → find p (update q f rows) ≡ map_some (λ r. if q r then f r else r) (find p rows)
  unfolding find update
  find-update p q f keep [] = refl
  find-update p q f keep (r ∷ rows) = ground (arith, keep r, find-update p q f keep rows)

  pub find-delete_other :
      (p q : R → Bool)
      → ((r : R) → p r ≡ true → q r ≡ false)
      → (rows : List R) → find p (delete q rows) ≡ find p rows
  unfolding find delete
  find-delete_other p q apart [] = refl
  find-delete_other p q apart (r ∷ rows) = ground (arith, apart r, find-delete_other p q apart rows)

  pub find-true : (p : R → Bool) (rows : List R) (r : R) → find p rows ≡ some r → p r ≡ true
  unfolding find
  find-true p [] r h = cc
  find-true p (x ∷ rows) r h = ground (arith, find-true p rows r)

  pub select-delete_self : (p : R → Bool) (rows : List R) → select p (delete p rows) ≡ []
  unfolding select delete
  select-delete_self p [] = refl
  select-delete_self p (r ∷ rows) = ground (arith, select-delete_self p rows)

  pub find-select :
      (p q : R → Bool)
      → ((r : R) → p r ≡ true → q r ≡ true)
      → (rows : List R) → find p (select q rows) ≡ find p rows
  unfolding find select
  find-select p q wider [] = refl
  find-select p q wider (r ∷ rows) = ground (arith, wider r, find-select p q wider rows)

  pub select-append :
      (p : R → Bool) (xs ys : List R) → select p (xs ++ ys) ≡ select p xs ++ select p ys
  unfolding select
  select-append p [] ys = refl
  select-append p (x ∷ xs) ys = ground (arith, select-append p xs ys)

  pub select-delete_other :
      (p q : R → Bool)
      → ((r : R) → p r ≡ true → q r ≡ false)
      → (rows : List R) → select p (delete q rows) ≡ select p rows
  unfolding select delete
  select-delete_other p q apart [] = refl
  select-delete_other p q apart (r ∷ rows) =
      ground (arith, apart r, select-delete_other p q apart rows)

-- The same laws for the row of an id, under an update that keeps the ids.
module _ {R : Type 0} ⦃k : Keyed R⦄ where
  pub find-update_self :
      (i : ℕ) (f : R → R)
      → ((r : R) → k.id_of (f r) ≡ k.id_of r)
      → (rows : List R)
      → find (by_id i) (update (by_id i) f rows) ≡ map_some f (find (by_id i) rows)
  unfolding find update
  find-update_self i f keep [] = refl
  find-update_self i f keep (r ∷ rows) = ground (arith, keep r, find-update_self i f keep rows)

  pub find-update_ne :
      (j i : ℕ) (f : R → R)
      → ((r : R) → k.id_of (f r) ≡ k.id_of r)
      → (rows : List R) → j ≢ i
      → find (by_id j) (update (by_id i) f rows) ≡ find (by_id j) rows
  unfolding find update
  find-update_ne j i f keep [] ne = refl
  find-update_ne j i f keep (r ∷ rows) ne =
      ground (arith, keep r, find-update_ne j i f keep rows ne)

  pub find-id : (i : ℕ) (rows : List R) (r : R) → find (by_id i) rows ≡ some r → k.id_of r ≡ i
  find-id i rows r h = ==→eq (k.id_of r) i (find-true (by_id i) rows r h)

  -- The primary key: no two rows have one id.
  abbrev pub UniqueIds : List R → Type 0
  UniqueIds [] = Unit
  UniqueIds (r ∷ rows) = All (λ s. k.id_of s ≢ k.id_of r) rows × UniqueIds rows

  pub All-update {κ} :
      (P : R → Type κ) (q : R → Bool) (f : R → R)
      → ((r : R) → P r → P (f r))
      → (rows : List R) → All P rows
      → All P (update q f rows)
  unfolding update
  All-update P q f keep [] h = tt
  All-update P q f keep (r ∷ rows) h = (
    elim (q r) as (λ b. P (if b then f r else r)) [ true ↦ keep r h.0 | false ↦ h.0 ],
    All-update P q f keep rows h.1,
  )

  pub find-All {κ} :
      (P : R → Type κ) (p : R → Bool) (rows : List R) (r : R)
      → All P rows
      → find p rows ≡ some r
      → P r
  unfolding find
  find-All P p [] r h e = absurd (cc)
  find-All P p (x ∷ rows) r h e = elim (Bool-cases (p x)) [
    | inl t ↦ subst P (ground (arith, t)) h.0
    | inr t ↦ find-All P p rows r h.1 (ground (arith, t))
  ]

  -- With a primary key, a row that a query finds is the row of its id.
  pub find-own_id :
      (p : R → Bool) (rows : List R) (r : R)
      → UniqueIds rows
      → find p rows ≡ some r
      → find (by_id (k.id_of r)) rows ≡ some r
  unfolding find
  find-own_id p [] r u e = absurd (cc)
  find-own_id p (x ∷ rows) r (apart, u) e = elim (Bool-cases (p x)) [
    | inl t ↦ let same : x ≡ r = ground (arith, t) in rw (← same) (rw (==-refl (k.id_of x)) refl)
    | inr t ↦
        let e' : find p rows ≡ some r = ground (arith, t) in
        let other : k.id_of r ≢ k.id_of x =
          find-All (λ s. k.id_of s ≢ k.id_of x) p rows r apart e' in
        ground (arith, other, find-own_id p rows r u e')
  ]

  id_of_if :
      (b : Bool) (f : R → R)
      → ((r : R) → k.id_of (f r) ≡ k.id_of r)
      → (r : R) → k.id_of (if b then f r else r) ≡ k.id_of r
  id_of_if true f keep r = keep r
  id_of_if false f keep r = refl

  pub UniqueIds-update :
      (q : R → Bool) (f : R → R)
      → ((r : R) → k.id_of (f r) ≡ k.id_of r)
      → (rows : List R) → UniqueIds rows
      → UniqueIds (update q f rows)
  unfolding update
  UniqueIds-update q f keep [] u = tt
  UniqueIds-update q f keep (r ∷ rows) (apart, u) = (
    rw (id_of_if (q r) f keep r)
        (All-update (λ s. k.id_of s ≢ k.id_of r) q f (λ s h. rw (keep s) h) rows apart),
    UniqueIds-update q f keep rows u,
  )

  pub update-none :
      (i : ℕ) (f : R → R) (rows : List R)
      → find (by_id i) rows ≡ none
      → update (by_id i) f rows ≡ rows
  unfolding find update
  update-none i f [] h = refl
  update-none i f (r ∷ rows) h = ground (arith, update-none i f rows)

  pub find-none-All :
      (i : ℕ) (rows : List R) → find (by_id i) rows ≡ none → All (λ r. k.id_of r ≢ i) rows
  unfolding find
  find-none-All i [] h = tt
  find-none-All i (r ∷ rows) h = (ground arith, find-none-All i rows (ground arith))

  -- With a primary key, the row that a query finds is still the one it finds after the update of
  -- that row, if the new row passes the test too.
  pub find-update_found :
      (p : R → Bool) (f : R → R) (rows : List R) (r : R)
      → UniqueIds rows
      → find p rows ≡ some r
      → p (f r) ≡ true
      → find p (update (by_id (k.id_of r)) f rows) ≡ some (f r)
  unfolding find update
  find-update_found p f [] r u e t = absurd (cc)
  find-update_found p f (x ∷ rows) r (apart, u) e t = elim (Bool-cases (p x)) [
    | inl passes ↦
        let same : x ≡ r = ground (arith, passes) in rw same (rw (==-refl (k.id_of r)) (rw t refl))
    | inr fails ↦
        let e' : find p rows ≡ some r = ground (arith, fails) in
        let other : k.id_of r ≢ k.id_of x =
          find-All (λ s. k.id_of s ≢ k.id_of x) p rows r apart e' in
        ground (arith, other, fails, find-update_found p f rows r u e' t)
  ]
