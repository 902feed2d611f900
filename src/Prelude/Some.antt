-- ===== src/Prelude/Some.antt =====
-- Lists of which some element has a property.
use mathlib.Core.Path.{◌≡◌}
use mathlib.Core.Logic.{◌⊎◌, inl, inr}
use mathlib.Core.Bool.{Bool, true, false}
use mathlib.Core.List.{List, [], ◌∷◌, ◌++◌}
use bomboli_server.Prelude.Tests.{Bool-cases}
use bomboli_server.Prelude.Lists.{All, Any}
use bomboli_server.Prelude.Table.{select}
use bomboli_server.Prelude.Sort.{insert_with, sort_with}

module _ {A : Type 0} where
  pub Any-impl : (P Q : A → Type 0) → ((a : A) → P a → Q a) → (xs : List A) → Any P xs → Any Q xs
  Any-impl P Q f [] h = h
  Any-impl P Q f (x ∷ xs) (inl h) = inl (f x h)
  Any-impl P Q f (x ∷ xs) (inr h) = inr (Any-impl P Q f xs h)

  pub Any-append_left : (P : A → Type 0) (xs ys : List A) → Any P xs → Any P (xs ++ ys)
  Any-append_left P [] ys h = absurd h
  Any-append_left P (x ∷ xs) ys (inl h) = inl h
  Any-append_left P (x ∷ xs) ys (inr h) = inr (Any-append_left P xs ys h)

  pub Any-append_right : (P : A → Type 0) (xs ys : List A) → Any P ys → Any P (xs ++ ys)
  Any-append_right P [] ys h = h
  Any-append_right P (x ∷ xs) ys h = inr (Any-append_right P xs ys h)

  pub select-Any :
      (P : A → Type 0) (p : A → Bool) (xs : List A)
      → Any P (select p xs)
      → Any (λ x. (p x ≡ true) × P x) xs
  unfolding select
  select-Any P p [] h = h
  select-Any P p (x ∷ xs) h = elim (Bool-cases (p x)) [
    | inr f ↦ inr (select-Any P p xs (rw f at h))
    | inl t ↦ elim (rw t at h) [
      | inl now ↦ inl (t, now)
      | inr later ↦ inr (select-Any P p xs later)
    ]
  ]

  pub select-All :
      (P : A → Type 0) (p : A → Bool) (xs : List A)
      → All P (select p xs)
      → All (λ x. (p x ≡ false) ⊎ P x) xs
  unfolding select
  select-All P p [] h = tt
  select-All P p (x ∷ xs) h = elim (Bool-cases (p x)) [
    | inr f ↦ (inl f, select-All P p xs (rw f at h))
    | inl t ↦
        (let both : All P (x ∷ select p xs) = rw t at h in (inr both.0, select-All P p xs both.1))
  ]

  pub Any-select :
      (p : A → Bool) (xs : List A) → Any (λ x. p x ≡ true) xs → Any (λ x. p x ≡ true) (select p xs)
  unfolding select
  Any-select p [] h = h
  Any-select p (x ∷ xs) (inl t) = rw t (inl t)
  Any-select p (x ∷ xs) (inr later) = elim (Bool-cases (p x)) [
    | inr f ↦ rw f (Any-select p xs later)
    | inl t ↦ rw t (inr (Any-select p xs later))
  ]

  module _ (P : A → Type 0) (before : A → A → Bool) where
    insert_with-head : (a : A) (xs : List A) → P a → Any P (insert_with before a xs)
    unfolding insert_with
    insert_with-head a [] p = inl p
    insert_with-head a (x ∷ xs) p = elim (Bool-cases (before a x)) [
      | inl t ↦ rw t (inl p)
      | inr f ↦ rw f (inr (insert_with-head a xs p))
    ]

    insert_with-tail : (a : A) (xs : List A) → Any P xs → Any P (insert_with before a xs)
    unfolding insert_with
    insert_with-tail a [] h = absurd h
    insert_with-tail a (x ∷ xs) (inl p) = elim (Bool-cases (before a x)) [
      | inl t ↦ rw t (inr (inl p))
      | inr f ↦ rw f (inl p)
    ]
    insert_with-tail a (x ∷ xs) (inr h) = elim (Bool-cases (before a x)) [
      | inl t ↦ rw t (inr (inr h))
      | inr f ↦ rw f (inr (insert_with-tail a xs h))
    ]

    pub sort_with-Any : (xs : List A) → Any P xs → Any P (sort_with before xs)
    unfolding sort_with
    sort_with-Any [] h = h
    sort_with-Any (x ∷ xs) (inl p) = insert_with-head x (sort_with before xs) p
    sort_with-Any (x ∷ xs) (inr h) = insert_with-tail x (sort_with before xs) (sort_with-Any xs h)
