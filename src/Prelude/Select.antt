-- ===== src/Prelude/Select.antt =====
-- What a query selects: rows that pass its test, and every one of them.
use Prim.Native.Nat.{ℕ}
use mathlib.Core.Path.{◌≡◌, refl}
use mathlib.Core.Logic.{inl, inr}
use mathlib.Core.Bool.{Bool, true}
use mathlib.Core.List.{List, [], ◌∷◌}
use native.Mathlib.Omega.{arith}
use bomboli_server.Prelude.Tests.{if◌then◌else◌, Bool-cases}
use bomboli_server.Prelude.Lists.{All, sum_by}
use bomboli_server.Prelude.Table.{select}

pub select-passes : {A : Type 0} (p : A → Bool) (xs : List A) → All (λ x. p x ≡ true) (select p xs)
unfolding select
select-passes p [] = tt
select-passes p (x ∷ xs) = elim (Bool-cases (p x)) [
  | inl t ↦ rw t (t, select-passes p xs)
  | inr f ↦ rw f (select-passes p xs)
]

pub sum_by-select :
    {A : Type 0} (f : A → ℕ) (p : A → Bool) (xs : List A)
    → sum_by f (select p xs) ≡ sum_by (λ x. if p x then f x else 0) xs
unfolding select sum_by
sum_by-select f p [] = refl
sum_by-select f p (x ∷ xs) = ground (arith, sum_by-select f p xs)
