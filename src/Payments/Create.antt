-- ===== src/Payments/Create.antt =====
-- `createForOrder` of src/modules/payments/payments.service.ts.
use bomboli_server.Prelude.{
  ℕ, ◌==◌, ◌||◌, not, String, Option, none, some, ◌∷◌, find, if◌then◌else◌,
}
use bomboli_server.Db.{
  Db, Env, User, Order, OrderStatus, Payment, PaymentStatus, PaymentEventName, ProviderKind,
  create_intent, Error, ErrorCode, Action, pure, gets, or_throw, throw, throw_if, modify, emit,
  ◌>>=◌, ◌>>◌, eq_order_status, eq_payment_status,
}
use bomboli_server.Users.{get_by_supabase_id_or_fail}
use bomboli_server.Orders.Access.{find_order}
use bomboli_server.Payments.Gateway.{
  Gateway, IntentArgs, IntentResult, Reply, replied, threw, PaymentResponse, provider_for, compose,
}
use bomboli_server.Payments.Marks.{find_payment, update_payment, log_attempt, event_of, failed_row}

-- `CreatePaymentInput`
pub record CreatePaymentInput : Type 0 where
  pub provider : ProviderKind
  pub return_url : Option String
  pub cancel_url : Option String
  pub phone : Option String
  pub operator : Option String
  pub idempotency_key : Option String

-- `order.payment`: at most one row has the order's id.
unfoldable pub payment_of : ℕ → Db → Option Payment
payment_of order_id db = find (λ p. p.order_id == order_id) db.payments

abbrev pub new_payment : Env → ProviderKind → Order → Payment
new_payment env provider order = record {
  id = env.fresh 0;
  order_id = order.id;
  provider = provider;
  provider_ref = none;
  amount_cents = order.total_cents;
  currency = order.currency;
  status = PaymentStatus.pending;
  captured_at = none;
  failure_reason = none;
  metadata = none;
}

unfoldable pub intent_args : Env → User → Order → CreatePaymentInput → IntentArgs
intent_args env buyer order input = record {
  payment_id = env.fresh 0;
  order_id = order.id;
  amount_cents = order.total_cents;
  currency = order.currency;
  buyer_email = buyer.email;
  buyer_phone = buyer.phone;
  idempotency_key = input.idempotency_key;
  return_url = input.return_url;
  cancel_url = input.cancel_url;
  phone = input.phone;
  operator = input.operator;
}

abbrev pub with_intent : IntentResult → Payment → Payment
with_intent r p = record p { provider_ref = some r.provider_ref; metadata = some r.client_payload }

-- What follows the provider's answer: the `try`, `catch` and `finally` blocks.
unfoldable pub settle_intent :
    Env → CreatePaymentInput → Payment → Reply IntentResult → Action PaymentResponse
settle_intent env input payment (replied r) = do
  update_payment payment.id (with_intent r)
  log_attempt payment.id create_intent input.provider input.idempotency_key none
      PaymentStatus.pending
  emit (event_of PaymentEventName.created env.now none payment)
  refreshed ← or_throw Error.missing_record (← gets (find_payment payment.id))
  pure (compose refreshed (some r.client_payload))
settle_intent env input payment (threw e message) = do
  log_attempt payment.id create_intent input.provider input.idempotency_key none
      PaymentStatus.failed
  update_payment payment.id (failed_row message)
  emit (event_of PaymentEventName.created env.now (some message) payment)
  throw e

-- An order without a payment: the row is written, and the provider is called.
unfoldable pub open_payment :
    Gateway → Env → User → Order → CreatePaymentInput → Action PaymentResponse
unfolding settle_intent intent_args
open_payment g env buyer order input = do
  provider_for g input.provider
  modify (λ db. record db { payments = new_payment env input.provider order ∷ db.payments })
  settle_intent env input (new_payment env input.provider order)
      (g.create_intent input.provider (intent_args env buyer order input))

unfoldable pub pay_again : Payment → Action PaymentResponse
pay_again p =
    if eq_payment_status p.status PaymentStatus.pending
    then pure (compose p none)
    else throw (Error.domain ErrorCode.conflict 409)

unfoldable pub create_or_resume :
    Gateway → Env → User → Order → CreatePaymentInput → Option Payment → Action PaymentResponse
unfolding pay_again
create_or_resume g env buyer order input none = open_payment g env buyer order input
create_or_resume g env buyer order input (some p) = pay_again p

-- The checks of `createForOrder`: the caller, who is the order's buyer, and the order, which is
-- neither cancelled nor refunded.
unfoldable pub check_payable : ℕ → ℕ → Action (User × Order)
check_payable actor order_id = do
  buyer ← get_by_supabase_id_or_fail actor
  order ← or_throw Error.not_found (← gets (find_order order_id))
  throw_if (not (order.buyer_id == buyer.id)) Error.forbidden
  throw_if
      (eq_order_status order.status OrderStatus.cancelled
        || eq_order_status order.status OrderStatus.refunded)
      (Error.domain ErrorCode.conflict 409)
  pure (buyer, order)

unfoldable pub create_for_order :
    Gateway → Env → ℕ → ℕ → CreatePaymentInput → Action PaymentResponse
unfolding create_or_resume
create_for_order g env actor order_id input = do
  checked ← check_payable actor order_id
  existing ← gets (payment_of checked.1.id)
  create_or_resume g env checked.0 checked.1 input existing
