-- ===== src/Prelude/Changes.antt =====
-- How one request changes a table: not at all, the row of one id, or by a new row.
use mathlib.Core.Path.{◌≡◌, refl, sym, ap, subst, ◌∙◌}
use mathlib.Core.Logic.{inl, inr}
use mathlib.Core.Bool.{true, false}
use mathlib.Core.Option.{none, some}
use mathlib.Core.List.{List, ◌∷◌}
use native.Mathlib.Omega.{arith}
use Prim.Native.Nat.{ℕ}
use bomboli_server.Prelude.Tests.{◌==◌, ==→eq, Bool-cases}
use bomboli_server.Prelude.Table.{
  Keyed, by_id, find, update, find-update, find-id, UniqueIds, UniqueIds-update, find-none-All,
}

module _ {R : Type 0} ⦃k : Keyed R⦄ (Rel : R → R → Type 0) where
  pub data Change (rows rows' : List R) : Type 0 where
    same : rows' ≡ rows → Change rows rows'
    moved :
        (i : ℕ) (r : R) (f : R → R)
        → find (by_id i) rows ≡ some r
        → ((q : R) → k.id_of (f q) ≡ k.id_of q)
        → Rel r (f r)
        → rows' ≡ update (by_id i) f rows
        → Change rows rows'
    opened : (r : R) → find (by_id (k.id_of r)) rows ≡ none → rows' ≡ r ∷ rows → Change rows rows'

  found_twice :
      (i j : ℕ) (r q : R) (rows : List R)
      → find (by_id i) rows ≡ some r
      → find (by_id j) rows ≡ some q
      → (k.id_of q == i) ≡ true
      → r ≡ q
  found_twice i j r q rows f e this =
      let to_i : j ≡ i = sym (find-id j rows q e) ∙ ==→eq (k.id_of q) i this in
      let at_i = subst (λ (x : ℕ). find (by_id x) rows ≡ some q) to_i e in ground (arith, f, at_i)

  new_id_differs :
      (r : R) (j : ℕ) (q : R) (rows : List R)
      → find (by_id (k.id_of r)) rows ≡ none
      → find (by_id j) rows ≡ some q
      → (k.id_of r == j) ≡ false
  new_id_differs r j q rows new e = elim (Bool-cases (k.id_of r == j)) [
    | inr other ↦ other
    | inl this ↦
        let at_j = subst (λ (x : ℕ). find (by_id x) rows ≡ none) (==→eq (k.id_of r) j this) new in
        absurd (ground (arith, at_j, e))
  ]

  -- A row that is there stays there, and is related to what becomes of it.
  pub Change-found :
      ((r : R) → Rel r r)
      → (rows rows' : List R) → Change rows rows'
      → (j : ℕ) (q : R) → find (by_id j) rows ≡ some q
      → (q' : R) × (find (by_id j) rows' ≡ some q') × Rel q q'
  unfolding find
  Change-found stay rows rows' (same h) j q e = (q, rw h e, stay q)
  Change-found stay rows rows' (opened r new h) j q e =
      (q, rw h (rw (new_id_differs r j q rows new e) e), stay q)
  Change-found stay rows rows' (moved i r f found keep rel h) j q e =
      let updated = find-update (by_id j) (by_id i) f (λ x. ap (λ y. y == j) (keep x)) rows in
      elim (Bool-cases (k.id_of q == i)) [
        | inr other ↦ (q, rw h (updated ∙ rw e (rw other refl)), stay q)
        | inl this ↦
            let is_r : r ≡ q = found_twice i j r q rows found e this in
            (f q, rw h (updated ∙ rw e (rw this refl)), subst (λ (x : R). Rel x (f x)) is_r rel)
      ]

  pub Change-UniqueIds :
      (rows rows' : List R) → Change rows rows' → UniqueIds rows → UniqueIds rows'
  Change-UniqueIds rows rows' (same h) u = rw h u
  Change-UniqueIds rows rows' (moved i r f found keep rel h) u =
      rw h (UniqueIds-update (by_id i) f keep rows u)
  Change-UniqueIds rows rows' (opened r new h) u = rw h (find-none-All (k.id_of r) rows new, u)
