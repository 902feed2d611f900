-- ===== src/Payments/Stuck.antt =====
-- An order whose payment could not be opened: the `catch` of `createForOrder` in
-- src/modules/payments/payments.service.ts, and the requests that follow.
use bomboli_server.Prelude.{
  ℕ, ◌≡◌, ◌∙◌, refl, ap, true, String, none, some, ◌∷◌, find, update, arith, ==-refl,
}
use bomboli_server.Db.{
  Db, Env, User, Order, Payment, PaymentStatus, Error, ErrorCode, ok, err, payment_key,
}
use bomboli_server.Users.{get_by_supabase_id_or_fail, find_by_supabase_id}
use bomboli_server.Orders.Access.{find_order}
use bomboli_server.Payments.Gateway.{Gateway, provider_for, threw}
use bomboli_server.Payments.Marks.{find_payment, update_payment, log_attempt, failed_row}
use bomboli_server.Payments.Create.{
  CreatePaymentInput, payment_of, new_payment, settle_intent, open_payment, pay_again,
  create_or_resume, check_payable, create_for_order, intent_args,
}
use bomboli_server.Payments.Opening.{settled_row, settle_intent-payments}

-- What a call of the provider that threw leaves: the row as failed, and the tables of the users
-- and of the orders as they were.
settle_intent-threw :
    (env : Env) (input : CreatePaymentInput) (p : Payment) (e : Error) (message : String) (db : Db)
    → find_payment p.id db ≡ none
    → let after =
        settle_intent env input p (threw e message) (record db { payments = p ∷ db.payments }) in
      (after.0 ≡ err e) × (after.1.users ≡ db.users) × (after.1.orders ≡ db.orders)
unfolding settle_intent log_attempt update_payment find_payment find update
settle_intent-threw env input p e message db new = ground (arith, ==-refl p.id)

find_by_supabase_id-local :
    (actor : ℕ) (db db' : Db)
    → db'.users ≡ db.users
    → find_by_supabase_id actor db' ≡ find_by_supabase_id actor db
unfolding find_by_supabase_id
find_by_supabase_id-local actor db db' u = rw u refl

find_order-local :
    (i : ℕ) (db db' : Db) → db'.orders ≡ db.orders → find_order i db' ≡ find_order i db
unfolding find_order
find_order-local i db db' o = rw o refl

-- The checks read the users and the orders only.
check_payable-local :
    (actor i : ℕ) (x : User × Order) (db db' : Db)
    → db'.users ≡ db.users
    → db'.orders ≡ db.orders
    → check_payable actor i db ≡ (ok x, db)
    → check_payable actor i db' ≡ (ok x, db')
unfolding check_payable get_by_supabase_id_or_fail
check_payable-local actor i x db db' u o h =
    ground (arith, h, find_by_supabase_id-local actor db db' u, find_order-local i db db' o)

create_for_order-threw :
    (g : Gateway) (env : Env) (actor i : ℕ) (input : CreatePaymentInput) (buyer : User)
    (order : Order) (e : Error) (message : String) (db : Db)
    → check_payable actor i db ≡ (ok (buyer, order), db)
    → payment_of order.id db ≡ none
    → g.is_configured input.provider ≡ true
    → g.create_intent input.provider (intent_args env buyer order input) ≡ threw e message
    → let p = new_payment env input.provider order in
      create_for_order g env actor i input db
      ≡ settle_intent env input p (threw e message) (record db { payments = p ∷ db.payments })
unfolding create_for_order create_or_resume open_payment provider_for
create_for_order-threw g env actor i input buyer order e message db may unpaid on down =
    ground (arith, may, unpaid, on, down)

create_for_order-refused :
    (g : Gateway) (env : Env) (actor i : ℕ) (input : CreatePaymentInput) (buyer : User)
    (order : Order) (p : Payment) (db : Db)
    → check_payable actor i db ≡ (ok (buyer, order), db)
    → payment_of order.id db ≡ some p
    → p.status ≡ PaymentStatus.failed
    → create_for_order g env actor i input db ≡ (err (Error.domain ErrorCode.conflict 409), db)
unfolding create_for_order create_or_resume pay_again
create_for_order-refused g env actor i input buyer order p db may paid is_failed =
    ground (arith, may, paid, is_failed)

-- If the provider throws when the payment of an order is opened, then the caller gets that
-- exception, the payment is stored as failed, and in the state that this leaves the next call of
-- `createForOrder` by the buyer for the order, with any provider and any input, is refused as a
-- conflict and changes nothing; if the buyer may pay the order, it has no payment yet, the new id is
-- not in use and the provider is configured.
pub create_for_order-failed_for_good :
    (g : Gateway) (env : Env) (actor i : ℕ) (input : CreatePaymentInput) (buyer : User)
    (order : Order) (e : Error) (message : String) (db : Db)
    → check_payable actor i db ≡ (ok (buyer, order), db)
    → payment_of order.id db ≡ none
    → find_payment (env.fresh 0) db ≡ none
    → g.is_configured input.provider ≡ true
    → g.create_intent input.provider (intent_args env buyer order input) ≡ threw e message
    → let after = create_for_order g env actor i input db in
      (after.0 ≡ err e)
      × (payment_of order.id after.1
          ≡ some (failed_row message (new_payment env input.provider order)))
      × ((g' : Gateway) (env' : Env) (input' : CreatePaymentInput)
          → create_for_order g' env' actor i input' after.1
            ≡ (err (Error.domain ErrorCode.conflict 409), after.1))
unfolding payment_of find settled_row
create_for_order-failed_for_good g env actor i input buyer order e message db may unpaid new on
      down =
    let p = new_payment env input.provider order in
    let after = create_for_order g env actor i input db in
    let ran =
      create_for_order-threw g env actor i input buyer order e message db may unpaid on down in
    let (thrown, users, orders) = settle_intent-threw env input p e message db new in
    let rows = settle_intent-payments env input p (threw e message) db new in
    let there : payment_of order.id after.1 ≡ some (failed_row message p) =
      rw (ran, rows, ==-refl order.id) refl in
    let may' =
      check_payable-local actor i (buyer, order) db after.1 (ap (λ x. x.1.users) ran ∙ users)
        (ap (λ x. x.1.orders) ran ∙ orders) may in
    (
      ap (λ x. x.0) ran ∙ thrown,
      there,
      λ g' env' input'.
          create_for_order-refused g' env' actor i input' buyer order (failed_row message p) after.1
            may' there refl,
    )
