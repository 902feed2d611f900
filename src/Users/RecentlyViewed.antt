-- ===== src/Users/RecentlyViewed.antt =====
-- The listings that a user has looked at: src/modules/users/recently-viewed/
-- recently-viewed.service.ts. Redis's sorted sets are a parameter, with what Redis documents of
-- the commands that the service sends.
pub mod Histories
pub mod Window
use bomboli_server.Prelude.{
  ℕ, suc, ◌-◌, ◌<◌, ◌==◌, ◌≡◌, List, [], ◌∷◌, map, All, take, delete, if◌then◌else◌,
}

pub record Entry : Type 0 where
  pub member : ℕ
  pub score : ℕ

-- A rank, counted from the lowest score, or by a negative index -n from the highest.
pub data Rank : Type 0 where
  at : ℕ → Rank
  from_end : ℕ → Rank

-- Sorted sets. `ranked` lists the entries of one, the highest score first.
pub record SortedSets : Type 1 where
  pub Z : Type 0
  pub missing : Z
  pub ranked : Z → List Entry
  pub zadd : Z → ℕ → ℕ → Z
  pub zremrangebyrank : Z → ℕ → Rank → Z
  pub zrevrange : Z → ℕ → Rank → List ℕ
  pub ranked-missing : ranked missing ≡ []
  -- A member added with the highest score comes first, and stands in no other place.
  pub ranked-zadd :
      (z : Z) (t m : ℕ)
      → All (λ e. e.score < t) (ranked z)
      → ranked (zadd z t m)
        ≡ record { member = m; score = t } ∷ delete (λ e. e.member == m) (ranked z)
  -- To remove the ranks 0 to -(n + 1) keeps the n highest scores.
  pub ranked-zremrangebyrank :
      (z : Z) (n : ℕ) → ranked (zremrangebyrank z 0 (from_end (suc n))) ≡ take n (ranked z)
  pub zrevrange-at :
      (z : Z) (n : ℕ) → zrevrange z 0 (at n) ≡ map (λ e. e.member) (take (suc n) (ranked z))
  pub zrevrange-from_end : (z : Z) → zrevrange z 0 (from_end 1) ≡ map (λ e. e.member) (ranked z)

abbrev pub max_entries : ℕ
max_entries = 50

-- `limit - 1`, which is the index -1 for no limit at all.
unfoldable last_rank : ℕ → Rank
last_rank limit = if limit == 0 then from_end 1 else at (limit - 1)

module _ (redis : SortedSets) where
  open redis use {Z, missing, zadd, zremrangebyrank, zrevrange}

  -- The sorted set under each user's key `rv:…`.
  abbrev pub Store : Type 0
  Store = ℕ → Z

  unfoldable pub set_key : ℕ → Z → Store → Store
  set_key user z store u = if u == user then z else store u

  -- `record`, the pipeline of the three commands; `expire` only sets the time to live.
  unfoldable pub record_view : ℕ → ℕ → ℕ → Store → Store
  unfolding set_key
  record_view now user listing store =
      set_key user (zremrangebyrank (zadd (store user) now listing) 0 (from_end (suc max_entries)))
        store

  unfoldable pub list : ℕ → ℕ → Store → List ℕ
  unfolding last_rank
  list user limit store = zrevrange (store user) 0 (last_rank limit)

  unfoldable pub clear : ℕ → Store → Store
  unfolding set_key
  clear user store = set_key user missing store
