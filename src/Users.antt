-- ===== src/Users.antt =====
-- The lookups of `UsersService` and `SellersService` that the other services call
-- (src/modules/users/users.service.ts, src/modules/sellers/sellers.service.ts), and the query
-- `lookupSellerSupabaseId` that orders.service.ts and payments.service.ts share.
pub mod Addresses
pub mod RecentlyViewed
pub mod Provision
pub mod Profile
pub mod Devices
use bomboli_server.Prelude.{ℕ, ◌==◌, Option, none, some, find, by_id, map_some}
use bomboli_server.Db.{Db, User, Seller, Error, Action, gets, or_throw, ◌>>=◌, user_key, seller_key}

unfoldable pub find_by_supabase_id : ℕ → Db → Option User
find_by_supabase_id sub db = find (λ u. u.supabase_id == sub) db.users

unfoldable pub get_by_supabase_id_or_fail : ℕ → Action User
unfolding find_by_supabase_id
get_by_supabase_id_or_fail sub = do or_throw Error.not_found (← gets (find_by_supabase_id sub))

-- `SellersRepository.findByUserId`
unfoldable pub seller_of_user : ℕ → Db → Option Seller
seller_of_user user_id db = find (λ s. s.user_id == user_id) db.sellers

unfoldable pub find_seller_id_by_user_id : ℕ → Db → Option ℕ
unfolding seller_of_user
find_seller_id_by_user_id user_id db = map_some (λ s. s.id) (seller_of_user user_id db)

unfoldable supabase_id_of_user : Option User → Option ℕ
supabase_id_of_user = map_some (λ u. u.supabase_id)

-- The auth id of the user behind a seller profile.
unfoldable pub lookup_seller_supabase_id : ℕ → Db → Option ℕ
unfolding supabase_id_of_user
lookup_seller_supabase_id seller_id db = elim (find (by_id seller_id) db.sellers) [
  | none ↦ none
  | some s ↦ supabase_id_of_user (find (by_id s.user_id) db.users)
]
