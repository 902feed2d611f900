-- ===== src/Db/Monad.antt =====
-- A method call: it reads and writes the state, and returns or throws. What was written before a
-- throw stays written, except inside `$transaction`.
use bomboli_server.Prelude.{
  arith, ◌≡◌, refl, ⊤, ◌⊎◌, inl, inr, Bool, Option, none, some, ◌∷◌, if◌then◌else◌,
}
use bomboli_server.Db.Types.{Error}
use bomboli_server.Db.State.{Db, Event}

pub data Result (A : Type 0) : Type 0 where
  ok : A → Result A
  err : Error → Result A

abbrev pub Action : Type 0 → Type 0
Action A = Db → Result A × Db

module _ {A : Type 0} where
  abbrev pub pure : A → Action A
  pure a db = (ok a, db)

  abbrev pub throw : Error → Action A
  throw e db = (err e, db)

  abbrev pub gets : (Db → A) → Action A
  gets f db = (ok (f db), db)

  abbrev pub or_throw : Error → Option A → Action A
  or_throw e none = throw e
  or_throw e (some a) = pure a

  -- `prisma.$transaction`: a throw takes back what the block has written.
  abbrev pub transaction : Action A → Action A
  transaction m db = let (r, db') = m db in elim r [ ok a ↦ (ok a, db') | err e ↦ (err e, db) ]

infixl 5 ◌>>=◌ ◌>>◌
abbrev pub ◌>>=◌ : {A B : Type 0} → Action A → (A → Action B) → Action B
◌>>=◌ m f db = let (r, db') = m db in elim r [ ok a ↦ f a db' | err e ↦ throw e db' ]

abbrev pub ◌>>◌ : {A B : Type 0} → Action A → Action B → Action B
m >> k = m >>= λ _. k

abbrev pub throw_if : Bool → Error → Action ⊤
throw_if test e db = (if test then err e else ok tt, db)

abbrev pub modify : (Db → Db) → Action ⊤
modify f db = (ok tt, f db)

-- `emit`, whose own failure is caught and logged.
abbrev pub emit : Event → Action ⊤
emit e = modify (λ db. record db { events = e ∷ db.events })

-- What is left of an answer: whether the call went through.
abbrev pub done : {A : Type 0} → Action A → Action ⊤
done m = m >>= λ a. pure tt

pub done-state : {A : Type 0} (m : Action A) (db : Db) → (done m db).1 ≡ (m db).1
done-state m db = ground arith

-- How a call ended, with its value or its error and the state that it left.
pub Run-cases :
    {A : Type 0} (s : Result A × Db)
    → ((a : A) × (db : Db) × (s ≡ (ok a, db))) ⊎ ((e : Error) × (db : Db) × (s ≡ (err e, db)))
Run-cases (ok a, db) = inl (a, db, refl)
Run-cases (err e, db) = inr (e, db, refl)
