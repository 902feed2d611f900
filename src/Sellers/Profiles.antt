-- ===== src/Sellers/Profiles.antt =====
-- What `upsertMyProfile` of src/modules/sellers/sellers.service.ts does to the table of profiles.
use bomboli_server.Prelude.{ℕ, Option, none, some, List, ◌∷◌, update, by_id}
use bomboli_server.Db.{Db, Env, Seller, seller_key, user_key}
use bomboli_server.Sellers.{UpsertSellerProfileArgs, new_seller, upserted}

module _ (env : Env) (args : UpsertSellerProfileArgs) where
  id_of_profile : ℕ → Option Seller → ℕ
  id_of_profile user_id none = (new_seller env user_id).id
  id_of_profile user_id (some s) = s.id

  -- The table after the upsert.
  sellers_after : ℕ → Option Seller → List Seller → List Seller
  sellers_after user_id none rows =
      update (by_id (new_seller env user_id).id) (upserted env args) (new_seller env user_id ∷ rows)
  sellers_after user_id (some s) rows = update (by_id s.id) (upserted env args) rows
