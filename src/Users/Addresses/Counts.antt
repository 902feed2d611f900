-- ===== src/Users/Addresses/Counts.antt =====
-- How the writes of src/modules/users/addresses/addresses.repository.ts change the number of
-- default addresses of a user.
use bomboli_server.Prelude.{
  ℕ, ◌≤◌, ◌==◌, ◌≡◌, ◌≢◌, inl, inr, refl, Bool, not, ◌&&◌, List, [], ◌∷◌, update, delete, by_id,
  sum_by, UniqueIds, All, arith, if◌then◌else◌, Bool-cases,
}
use bomboli_server.Db.{Db, Address, address_key}
use bomboli_server.Users.Addresses.{UpdateAddressArgs, clear_default, raise_default, apply_update}

abbrev is_default_of : ℕ → Address → ℕ
is_default_of user_id a = if a.user_id == user_id && a.is_default then 1 else 0

-- How many addresses of the user are marked as the default.
unfoldable pub defaults : ℕ → List Address → ℕ
defaults user_id = sum_by (is_default_of user_id)

abbrev pub HasOneDefault : Db → Type 0
HasOneDefault db = (user_id : ℕ) → defaults user_id db.addresses ≤ 1

pub defaults-clear :
    (u v : ℕ) (rows : List Address)
    → defaults v (update (λ a. a.user_id == u) clear_default rows)
      ≡ (if v == u then 0 else defaults v rows)
unfolding defaults sum_by update
defaults-clear u v [] = ground arith
defaults-clear u v (a ∷ rows) = ground (arith, defaults-clear u v rows)

pub defaults-apply_update :
    (i v : ℕ) (args : UpdateAddressArgs) (rows : List Address)
    → defaults v (update (by_id i) (apply_update args) rows) ≡ defaults v rows
unfolding defaults sum_by update apply_update
defaults-apply_update i v args [] = refl
defaults-apply_update i v args (a ∷ rows) = ground (arith, defaults-apply_update i v args rows)

pub defaults-delete :
    (p : Address → Bool) (v : ℕ) (rows : List Address)
    → defaults v (delete p rows) ≤ defaults v rows
unfolding defaults sum_by delete
defaults-delete p v [] = ground arith
defaults-delete p v (a ∷ rows) = ground (arith, defaults-delete p v rows)

-- How many rows have the id.
pub holders : ℕ → List Address → ℕ
unfolding sum_by
holders i = sum_by (λ a. if a.id == i then 1 else 0)

holders-apart : (i : ℕ) (rows : List Address) → All (λ a. a.id ≢ i) rows → holders i rows ≡ 0
unfolding holders sum_by
holders-apart i [] h = refl
holders-apart i (a ∷ rows) (ne, h) = ground (arith, ne, holders-apart i rows h)

pub holders_unique : (i : ℕ) (rows : List Address) → UniqueIds rows → holders i rows ≤ 1
unfolding holders sum_by
holders_unique i [] u = ground arith
holders_unique i (a ∷ rows) (apart, u) = elim (Bool-cases (a.id == i)) [
  | inl this ↦ ground (arith, this, holders-apart a.id rows apart)
  | inr other ↦ ground (arith, other, holders_unique i rows u)
]

abbrev pub made_default : ℕ → ℕ → List Address → List Address
made_default u i rows =
    update (λ a. a.id == i && a.user_id == u) raise_default
      (update (λ a. a.user_id == u && not (a.id == i)) clear_default rows)

pub defaults-made_default :
    (u i : ℕ) (rows : List Address) → defaults u (made_default u i rows) ≤ holders i rows
unfolding defaults holders sum_by update
defaults-made_default u i [] = ground arith
defaults-made_default u i (a ∷ rows) = ground (arith, defaults-made_default u i rows)

pub defaults-made_default_other :
    (u i v : ℕ) (rows : List Address) → v ≢ u → defaults v (made_default u i rows) ≡ defaults v rows
unfolding defaults sum_by update
defaults-made_default_other u i v [] ne = refl
defaults-made_default_other u i v (a ∷ rows) ne =
    ground (arith, ne, defaults-made_default_other u i v rows ne)
