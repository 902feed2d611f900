-- ===== src/Payments/Opening.antt =====
-- `createForOrder` of src/modules/payments/payments.service.ts on the rows of the payments.
use bomboli_server.Prelude.{
  ℕ, ◌≡◌, inl, inr, refl, subst, Option, none, some, ◌∷◌, find, update, update-none, arith,
  Bool-cases, ==-refl,
}
use bomboli_server.Db.{
  Db, Env, User, Order, Payment, PaymentStatus, Run-cases, payment_key, create_intent,
}
use bomboli_server.Users.{get_by_supabase_id_or_fail}
use bomboli_server.Payments.Gateway.{Gateway, provider_for, Reply, replied, threw, IntentResult}
use bomboli_server.Payments.Marks.{find_payment, log_attempt, failed_row}
use bomboli_server.Payments.Create.{
  CreatePaymentInput, payment_of, new_payment, with_intent, settle_intent, open_payment,
  create_or_resume, check_payable, create_for_order, intent_args,
}
use bomboli_server.Payments.Advance.{Change, Keeps, same, opened, update_payment-stored}

check_payable-pure : (actor i : ℕ) (db : Db) → (check_payable actor i db).1 ≡ db
unfolding check_payable get_by_supabase_id_or_fail
check_payable-pure actor i db = ground arith

-- What the provider's answer makes of the new payment.
unfoldable pub settled_row : Reply IntentResult → Payment → Payment
settled_row (replied r) p = with_intent r p
settled_row (threw e message) p = failed_row message p

settled_row-Keeps : (r : Reply IntentResult) (p : Payment) → Keeps p (settled_row r p)
unfolding settled_row
settled_row-Keeps (replied r) p = record {
  same_id = refl;
  same_order = refl;
  same_provider = refl;
  same_amount = refl;
  same_currency = refl;
}
settled_row-Keeps (threw e message) p = record {
  same_id = refl;
  same_order = refl;
  same_provider = refl;
  same_amount = refl;
  same_currency = refl;
}

abbrev with_payment : Payment → Db → Db
with_payment p db = record db { payments = p ∷ db.payments }

-- The row that was just written is updated, and no other.
pub settle_intent-payments :
    (env : Env) (input : CreatePaymentInput) (p : Payment) (r : Reply IntentResult) (db : Db)
    → find_payment p.id db ≡ none
    → (settle_intent env input p r (with_payment p db)).1.payments ≡ settled_row r p ∷ db.payments
unfolding settle_intent log_attempt find_payment find update settled_row
settle_intent-payments env input p (replied r) db new = ground (
  arith,
  ==-refl p.id,
  update_payment-stored p.id p (settled_row (replied r)) (with_payment p db)
      (rw (==-refl p.id) refl) (settled_row-Keeps (replied r)),
  update-none p.id (settled_row (replied r)) db.payments new,
)
settle_intent-payments env input p (threw e message) db new =
    let db₂ =
      (log_attempt p.id create_intent input.provider input.idempotency_key none PaymentStatus.failed
        (with_payment p db)).1 in
    ground (
      arith,
      ==-refl p.id,
      update_payment-stored p.id p (settled_row (threw e message)) db₂ (rw (==-refl p.id) refl)
          (settled_row-Keeps (threw e message)),
      update-none p.id (settled_row (threw e message)) db.payments new,
    )

open_payment-Change :
    (g : Gateway) (env : Env) (buyer : User) (order : Order) (input : CreatePaymentInput) (db : Db)
    → find_payment (env.fresh 0) db ≡ none
    → Change db (open_payment g env buyer order input db).1
unfolding open_payment provider_for
open_payment-Change g env buyer order input db new =
    elim (Bool-cases (g.is_configured input.provider)) [
      | inr off ↦ same (ground (arith, off))
      | inl on ↦
          let p = new_payment env input.provider order in
          let r = g.create_intent input.provider (intent_args env buyer order input) in
          let k = settled_row-Keeps r p in
          opened (settled_row r p) (rw (k.same_id) new)
            (ground (arith, on, settle_intent-payments env input p r db new))
    ]

create_or_resume-Change :
    (g : Gateway) (env : Env) (buyer : User) (order : Order) (input : CreatePaymentInput)
    (o : Option Payment) (db : Db)
    → find_payment (env.fresh 0) db ≡ none
    → Change db (create_or_resume g env buyer order input o db).1
unfolding create_or_resume
create_or_resume-Change g env buyer order input none db new =
    open_payment-Change g env buyer order input db new
create_or_resume-Change g env buyer order input (some p) db new = same (ground arith)

-- A new payment.
pub create_for_order-Change :
    (g : Gateway) (env : Env) (actor i : ℕ) (input : CreatePaymentInput) (db : Db)
    → find_payment (env.fresh 0) db ≡ none
    → Change db (create_for_order g env actor i input db).1
unfolding create_for_order
create_for_order-Change g env actor i input db new = elim (Run-cases (check_payable actor i db)) [
  | inr (e, db₁, k) ↦ same (ground (arith, k, check_payable-pure actor i db))
  | inl (checked, db₁, k) ↦
      let still : db₁ ≡ db = ground (arith, k, check_payable-pure actor i db) in
      subst (Change db) (ground (arith, k, still)) (
        create_or_resume-Change g env checked.0 checked.1 input (payment_of checked.1.id db) db new)
]
