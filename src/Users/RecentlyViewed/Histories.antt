-- ===== src/Users/RecentlyViewed/Histories.antt =====
-- The ideal history of what each user has looked at, against which the window that
-- src/modules/users/recently-viewed/recently-viewed.service.ts keeps is measured.
use bomboli_server.Prelude.{
  ℕ, zero, suc, ◌<◌, ◌≤◌, ◌==◌, ◌≡◌, ◌≢◌, refl, ap, Bool, true, false, List, [], ◌∷◌, All, length,
  take, take-All, take-take_self, delete, if◌then◌else◌, Bool-cases, inl, inr, arith, ==→eq,
}

-- What happens to the keys: a user opens a listing, clears the list, or writes nothing until the
-- key's time to live is over.
pub data Call : Type 0 where
  view : ℕ → ℕ → ℕ → Call
  clear_all : ℕ → Call
  expire : ℕ → Call

-- The ideal history of each user: every listing viewed, the latest first, each once.
abbrev pub Histories : Type 0
Histories = ℕ → List ℕ

unfoldable pub forget : ℕ → Histories → Histories
forget user h u = if u == user then [] else h u

unfoldable pub note : Call → Histories → Histories
unfolding forget
note (view now user listing) h u =
    if u == user then listing ∷ delete (λ j. j == listing) (h u) else h u
note (clear_all user) h u = forget user h u
note (expire user) h u = forget user h u

unfoldable pub notes : List Call → Histories → Histories
unfolding note
notes [] h = h
notes (c ∷ calls) h = notes calls (note c h)

-- The clock moves on between two views.
abbrev pub IsOrdered : ℕ → List Call → Type 0
IsOrdered t [] = Unit
IsOrdered t (view now user listing ∷ calls) = (t < now) × IsOrdered now calls
IsOrdered t (clear_all user ∷ calls) = IsOrdered t calls
IsOrdered t (expire user ∷ calls) = IsOrdered t calls

-- No listing twice.
abbrev pub Distinct : List ℕ → Type 0
Distinct [] = Unit
Distinct (x ∷ xs) = All (λ y. y ≢ x) xs × Distinct xs

pub delete-All :
    {A : Type 0} (P : A → Type 0) (p : A → Bool) (xs : List A) → All P xs → All P (delete p xs)
unfolding delete
delete-All P p [] h = tt
delete-All P p (x ∷ xs) h =
    elim (p x) as (λ b. All P (if b then delete p xs else x ∷ delete p xs)) [
      | true ↦ delete-All P p xs h.1
      | false ↦ (h.0, delete-All P p xs h.1)
    ]

pub delete-Distinct : (p : ℕ → Bool) (xs : List ℕ) → Distinct xs → Distinct (delete p xs)
unfolding delete
delete-Distinct p [] h = tt
delete-Distinct p (x ∷ xs) h =
    elim (p x) as (λ b. Distinct (if b then delete p xs else x ∷ delete p xs)) [
      | true ↦ delete-Distinct p xs h.1
      | false ↦ (delete-All _ p xs h.0, delete-Distinct p xs h.1)
    ]

pub delete-leaves : (x : ℕ) (xs : List ℕ) → All (λ y. y ≢ x) (delete (λ j. j == x) xs)
unfolding delete
delete-leaves x [] = tt
delete-leaves x (y ∷ ys) = elim (Bool-cases (y == x)) [
  | inl e ↦ rw e (delete-leaves x ys)
  | inr e ↦ rw e (ground arith, delete-leaves x ys)
]

delete-absent : (x : ℕ) (xs : List ℕ) → All (λ y. y ≢ x) xs → delete (λ j. j == x) xs ≡ xs
unfolding delete
delete-absent x [] h = refl
delete-absent x (y ∷ ys) h = ground (arith, delete-absent x ys)

-- To move a listing to the front and keep n, the first n are all that matter.
take-delete-take :
    (n x : ℕ) (h : List ℕ)
    → Distinct h
    → take n (delete (λ j. j == x) (take (suc n) h)) ≡ take n (delete (λ j. j == x) h)
unfolding take delete
take-delete-take zero x h d = refl
take-delete-take (suc n) x [] d = refl
take-delete-take (suc n) x (y ∷ ys) d = elim (Bool-cases (y == x)) [
  | inr e ↦ rw e (ap (◌∷◌ y) (take-delete-take n x ys d.1))
  | inl e ↦
      let same = ==→eq y x e in
      let other : All (λ z. z ≢ x) ys = rw (← same) d.0 in
      rw
        (
          e,
          delete-absent x ys other,
          delete-absent x (take (suc n) ys) (take-All _ (suc n) ys other),
        )
        (take-take_self (suc n) ys)
]

pub take-view :
    (n x : ℕ) (h : List ℕ)
    → Distinct h
    → take n (x ∷ delete (λ j. j == x) (take n h)) ≡ take n (x ∷ delete (λ j. j == x) h)
unfolding take
take-view zero x h d = refl
take-view (suc n) x h d = ap (◌∷◌ x) (take-delete-take n x h d)

pub take-Distinct : (n : ℕ) (xs : List ℕ) → Distinct xs → Distinct (take n xs)
unfolding take
take-Distinct zero xs d = tt
take-Distinct (suc n) [] d = tt
take-Distinct (suc n) (x ∷ xs) d = (take-All _ n xs d.0, take-Distinct n xs d.1)

pub length-take-le_length : (n : ℕ) (xs : List ℕ) → length (take n xs) ≤ length xs
unfolding take
length-take-le_length zero xs = omega arith
length-take-le_length (suc n) [] = omega arith
length-take-le_length (suc n) (x ∷ xs) = omega (arith, length-take-le_length n xs)

note-Distinct :
    (c : Call) (h : Histories) → ((u : ℕ) → Distinct (h u)) → (u : ℕ) → Distinct (note c h u)
unfolding note forget
note-Distinct (view now user listing) h d u = elim (Bool-cases (u == user)) [
  | inl e ↦ rw e (delete-leaves listing (h u), delete-Distinct _ (h u) (d u))
  | inr e ↦ rw e (d u)
]
note-Distinct (clear_all user) h d u = elim (Bool-cases (u == user)) [
  | inl e ↦ rw e tt
  | inr e ↦ rw e (d u)
]
note-Distinct (expire user) h d u = elim (Bool-cases (u == user)) [
  | inl e ↦ rw e tt
  | inr e ↦ rw e (d u)
]

pub notes-Distinct :
    (calls : List Call) (h : Histories)
    → ((u : ℕ) → Distinct (h u))
    → (u : ℕ) → Distinct (notes calls h u)
unfolding notes
notes-Distinct [] h d = d
notes-Distinct (c ∷ calls) h d = notes-Distinct calls (note c h) (note-Distinct c h d)
