-- ===== src/Payments/Captures.antt =====
-- Which PayPal order `confirm` of src/modules/payments/payments.service.ts captures for a payment.
use bomboli_server.Prelude.{
  ℕ, ◌≡◌, ◌∙◌, refl, sym, ap, subst, true, String, Option, none, some, find, update, by_id,
  map_some, find-id, find-update_self, or_else, arith, ==-refl,
}
use bomboli_server.Db.{
  Db, Env, User, Order, Payment, PaymentStatus, paypal, ok, capture, payment_key,
}
use bomboli_server.Users.{find_by_supabase_id, get_by_supabase_id_or_fail}
use bomboli_server.Orders.Access.{find_order}
use bomboli_server.Payments.Gateway.{Gateway, provider_for, replied}
use bomboli_server.Payments.Marks.{
  find_payment, log_attempt, succeeded_row, mark_succeeded, link_payment,
}
use bomboli_server.Payments.Confirm.{
  given, buyer_and_seller_of, check_confirm, confirm_payment, answer, after_capture, capture_status,
}
use bomboli_server.Payments.Advance.{update_payment-stored, update_order-payments}

own_id : (i : ℕ) (p : Payment) (db : Db) → find_payment i db ≡ some p → p.id ≡ i
unfolding find_payment
own_id i p db h = find-id i db.payments p h

mark_succeeded-payments :
    (env : Env) (p : Payment) (ref : Option String) (db : Db)
    → find_payment p.id db ≡ some p
    → (mark_succeeded env p.id ref db).1.payments
      ≡ update (by_id p.id) (succeeded_row env ref) db.payments
unfolding mark_succeeded
mark_succeeded-payments env p ref db found =
    let row = succeeded_row env ref in
    let stored = update_payment-stored p.id p row db found (λ q. record {
      same_id = refl;
      same_order = refl;
      same_provider = refl;
      same_amount = refl;
      same_currency = refl;
    }) in
    ground (
      arith,
      stored,
      update_order-payments p.order_id (link_payment env p.id)
          (record db { payments = update (by_id p.id) row db.payments }),
    )

found_in :
    (i : ℕ) (p : Payment) (f : Payment → Payment) (db db' : Db)
    → ((q : Payment) → (f q).id ≡ q.id)
    → p.id ≡ i
    → find_payment i db ≡ some p
    → db'.payments ≡ update (by_id p.id) f db.payments
    → find_payment i db' ≡ some (f p)
unfolding find_payment
found_in i p f db db' keep same_id found wrote =
    ap (find (by_id i)) (wrote ∙ ap (λ x. update (by_id x) f db.payments) same_id)
    ∙ find-update_self i f keep db.payments
    ∙ ap (map_some f) found

-- The caller is the buyer of the order of a pending PayPal payment.
pub record IsConfirmable (actor i : ℕ) (p : Payment) (buyer : User) (order : Order) (db : Db)
    : Type 0 where
  pub found : find_payment i db ≡ some p
  pub is_pending : p.status ≡ PaymentStatus.pending
  pub by_paypal : p.provider ≡ paypal
  pub is_user : find_by_supabase_id actor db ≡ some buyer
  pub has_order : find_order p.order_id db ≡ some order
  pub is_buyer : order.buyer_id ≡ buyer.id

module _ (g : Gateway) (env : Env) (actor i : ℕ) (p : Payment) (buyer : User) (order : Order)
    (db : Db) (k : IsConfirmable actor i p buyer order db)
    (on : g.is_configured paypal ≡ true) where
  checks :
      (override : Option String) (ref : String)
      → given (or_else override p.provider_ref) ≡ some ref
      → check_confirm g actor p override db ≡ (ok ref, db)
  unfolding check_confirm buyer_and_seller_of get_by_supabase_id_or_fail provider_for
  checks override ref named = ground (
    arith,
    k.is_pending,
    k.by_paypal,
    k.is_user,
    k.has_order,
    k.is_buyer,
    on,
    named,
    ==-refl buyer.id,
  )

  -- The provider is asked to capture the order that the caller names, if one is named; and once it
  -- has, the payment is stored as succeeded, under the reference that it had before, if it had one;
  -- if the caller is the buyer of the order of a pending PayPal payment.
  pub confirm_payment-captures :
      (override : Option String) (ref : String)
      → given (or_else override p.provider_ref) ≡ some ref
      → g.capture_order ref ≡ replied true
      → find_payment i (confirm_payment g env actor i override db).1
        ≡ some (succeeded_row env (or_else p.provider_ref (some ref)) p)
  unfolding confirm_payment answer after_capture log_attempt capture_status find_payment
  confirm_payment-captures override ref named completed =
      let row = succeeded_row env (or_else p.provider_ref (some ref)) in
      let same_id : p.id ≡ i = own_id i p db k.found in
      let db₁ = (log_attempt p.id capture paypal none none PaymentStatus.succeeded db).1 in
      let wrote =
        mark_succeeded-payments env p (or_else p.provider_ref (some ref)) db₁
          (subst (λ (x : ℕ). find_payment x db ≡ some p) (sym same_id) k.found) in
      let ends : (confirm_payment g env actor i override db).1.payments
          ≡ update (by_id p.id) row db.payments =
        ground (arith, k.found, checks override ref named, completed, wrote) in
      found_in i p row db (confirm_payment g env actor i override db).1 (λ q. refl) same_id k.found
        ends
