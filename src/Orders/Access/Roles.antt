-- ===== src/Orders/Access/Roles.antt =====
-- Whom an order belongs to, by the tables alone: against `lookupSellerSupabaseId` and the check of
-- the deliverer in src/modules/orders/orders.service.ts.
use bomboli_server.Prelude.{
  ℕ, ◌==◌, ◌≡◌, true, some, find, by_id, is_some_of, arith, Option-cases, inl, inr,
}
use bomboli_server.Db.{Db, User, Seller, Order, Deliverer, seller_key, user_key}
use bomboli_server.Users.{find_by_supabase_id, lookup_seller_supabase_id}
use bomboli_server.Deliverers.{find_deliverer_id_by_user_id}
use bomboli_server.Orders.Access.{is_assigned_deliverer}

-- The actor is the user behind the order's seller.
pub record IsSellerOf (actor : ℕ) (db : Db) (order : Order) : Type 0 where
  pub seller : Seller
  pub user : User
  pub its_seller : find (by_id order.seller_id) db.sellers ≡ some seller
  pub its_user : find (by_id seller.user_id) db.users ≡ some user
  pub is_actor : user.supabase_id ≡ actor

-- The actor is the user behind the deliverer that the order names.
pub record IsDelivererOf (actor : ℕ) (db : Db) (order : Order) : Type 0 where
  pub deliverer : Deliverer
  pub user : User
  pub its_user : find (λ u. u.supabase_id == actor) db.users ≡ some user
  pub its_row : find (λ d. d.user_id == user.id) db.deliverers ≡ some deliverer
  pub named : order.deliverer_id ≡ some deliverer.id

module _ (actor : ℕ) (db : Db) (order : Order) where
  pub sells-IsSellerOf :
      is_some_of actor (lookup_seller_supabase_id order.seller_id db) ≡ true
      → IsSellerOf actor db order
  unfolding lookup_seller_supabase_id
  sells-IsSellerOf h = elim (Option-cases (find (by_id order.seller_id) db.sellers)) [
    | inl e ↦ absurd (ground (arith, e))
    | inr (s, e) ↦ elim (Option-cases (find (by_id s.user_id) db.users)) [
      | inl f ↦ absurd (ground (arith, e, f))
      | inr (u, f) ↦ record {
        seller = s;
        user = u;
        its_seller = e;
        its_user = f;
        is_actor = ground (arith, e, f);
      }
    ]
  ]

  pub IsSellerOf-sells :
      IsSellerOf actor db order
      → is_some_of actor (lookup_seller_supabase_id order.seller_id db) ≡ true
  unfolding lookup_seller_supabase_id
  IsSellerOf-sells o = ground (arith, o.its_seller, o.its_user, o.is_actor)

  pub assigned-IsDelivererOf :
      is_assigned_deliverer actor order db ≡ true → IsDelivererOf actor db order
  unfolding is_assigned_deliverer find_by_supabase_id find_deliverer_id_by_user_id
  assigned-IsDelivererOf h = elim (Option-cases order.deliverer_id) [
    | inl n ↦ absurd (ground (arith, n))
    | inr (i, n) ↦ elim (Option-cases (find (λ (u : User). u.supabase_id == actor) db.users)) [
      | inl e ↦ absurd (ground (arith, n, e))
      | inr (u, e) ↦
          elim (Option-cases (find (λ (d : Deliverer). d.user_id == u.id) db.deliverers)) [
            | inl f ↦ absurd (ground (arith, n, e, f))
            | inr (d, f) ↦ record {
              deliverer = d;
              user = u;
              its_user = e;
              its_row = f;
              named = ground (arith, n, e, f);
            }
          ]
    ]
  ]

  pub IsDelivererOf-assigned :
      IsDelivererOf actor db order → is_assigned_deliverer actor order db ≡ true
  unfolding is_assigned_deliverer find_by_supabase_id find_deliverer_id_by_user_id
  IsDelivererOf-assigned o = ground (arith, o.named, o.its_user, o.its_row)
