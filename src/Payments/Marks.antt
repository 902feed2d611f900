-- ===== src/Payments/Marks.antt =====
-- The writes of src/modules/payments/payments.service.ts: `markSucceeded`, `markFailed`,
-- `markCancelled`, `markRefunded` and `logAttempt`.
use bomboli_server.Prelude.{⊤, ℕ, String, Option, none, some, ◌∷◌, find, update, by_id, or_else}
use bomboli_server.Db.{
  Db, Env, Order, Payment, AttemptKind, PaymentStatus, ProviderKind, Event, PaymentEventName,
  payment_event, Error, Action, pure, gets, or_throw, modify, emit, ◌>>=◌, ◌>>◌, payment_key,
  order_key,
}
use bomboli_server.Orders.Transition.{update_order}

unfoldable pub find_payment : ℕ → Db → Option Payment
find_payment i db = find (by_id i) db.payments

-- `payment.update({ where: { id } })`, which throws on a missing row and returns the new one.
unfoldable pub update_payment : ℕ → (Payment → Payment) → Action Payment
unfolding find_payment
update_payment i f = do
  or_throw Error.missing_record (← gets (find_payment i))
  modify (λ db. record db { payments = update (by_id i) f db.payments })
  or_throw Error.missing_record (← gets (find_payment i))

-- `logAttempt`; a failure of its own is caught and logged. Of the request and response
-- texts only the amount of a refund is kept.
unfoldable pub log_attempt :
    ℕ → AttemptKind → ProviderKind → Option String → Option ℕ → PaymentStatus → Action ⊤
log_attempt payment_id kind provider key amount_cents status = modify (λ db. record db {
  attempts =
      record {
        payment_id = payment_id;
        kind = kind;
        idempotency_key = key;
        provider = provider;
        amount_cents = amount_cents;
        status = status;
      }
      ∷ db.attempts;
})

abbrev pub event_of : PaymentEventName → ℕ → Option String → Payment → Event
event_of name at reason p = payment_event name (record {
  payment_id = p.id;
  order_id = p.order_id;
  provider = p.provider;
  amount_cents = p.amount_cents;
  currency = p.currency;
  at = at;
  failure_reason = reason;
})

abbrev pub succeeded_row : Env → Option String → Payment → Payment
succeeded_row env provider_ref p = record p {
  status = PaymentStatus.succeeded;
  captured_at = some env.now;
  provider_ref = or_else provider_ref p.provider_ref;
}

abbrev pub link_payment : Env → ℕ → Order → Order
link_payment env payment_id o = record o { payment_id = some payment_id; updated_at = env.now }

unfoldable pub mark_succeeded : Env → ℕ → Option String → Action Payment
unfolding update_payment
mark_succeeded env i provider_ref = do
  updated ← update_payment i (succeeded_row env provider_ref)
  update_order updated.order_id (link_payment env updated.id)
  emit (event_of PaymentEventName.succeeded env.now none updated)
  pure updated

abbrev pub failed_row : String → Payment → Payment
failed_row reason p = record p { status = PaymentStatus.failed; failure_reason = some reason }

unfoldable pub mark_failed : Env → ℕ → String → Action Payment
unfolding update_payment
mark_failed env i reason = do
  updated ← update_payment i (failed_row reason)
  emit (event_of PaymentEventName.failed env.now (some reason) updated)
  pure updated

abbrev pub cancelled_row : Payment → Payment
cancelled_row p = record p { status = PaymentStatus.cancelled }

unfoldable pub mark_cancelled : Env → ℕ → Action Payment
unfolding update_payment
mark_cancelled env i = do
  updated ← update_payment i cancelled_row
  emit (event_of PaymentEventName.cancelled env.now none updated)
  pure updated

abbrev pub refunded_row : Payment → Payment
refunded_row p = record p { status = PaymentStatus.refunded }

unfoldable pub mark_refunded : Env → ℕ → Action Payment
unfolding update_payment
mark_refunded env i = do
  updated ← update_payment i refunded_row
  emit (event_of PaymentEventName.refunded env.now none updated)
  pure updated
