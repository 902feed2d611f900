-- ===== src/Scenarios/Payments.antt =====
-- The payments of the sample orders: src/modules/payments/payments.service.ts.
use bomboli_server.Prelude.{false, ◌∷◌, ◌≡◌, refl, true, some, none, find, UniqueIds}
use bomboli_server.Db.{
  PaymentEvent, PaymentEventName, payment_event, Db, Env, ok, err, Error, ErrorCode, paypal,
  payment_key, Payment,
}
use bomboli_server.Users.{find_by_supabase_id, get_by_supabase_id_or_fail}
use bomboli_server.Orders.Access.{find_order}
use bomboli_server.Orders.Cancel.{is_final, on_payment_failed, cancelled_row}
use bomboli_server.Payments.Failure.{apply_webhook_event-cancels_order}
use bomboli_server.Payments.Status.{WebhookOutcome}
use bomboli_server.Payments.Gateway.{Gateway, replied, threw}
use bomboli_server.Payments.Marks.{find_payment, failed_row, succeeded_row}
use bomboli_server.Payments.Create.{
  CreatePaymentInput, payment_of, check_payable, create_for_order, new_payment,
}
use bomboli_server.Payments.Webhook.{
  WebhookEvent, find_by_ref, has_ref, dispatch, apply_webhook_event,
}
use bomboli_server.Payments.Advance.{Keeps}
use bomboli_server.Payments.History.{Step, Reach, Reach-Later, Later}
use bomboli_server.Payments.Stuck.{create_for_order-failed_for_good}
use bomboli_server.Payments.Confirm.{given, confirm_payment}
use bomboli_server.Payments.Twice.{apply_webhook_event-twice}
use bomboli_server.Payments.Captures.{IsConfirmable, confirm_payment-captures}
use bomboli_server.Scenarios.Data.{env, later, db, buyer, open_order, unpaid_order, pending_payment}

-- A gateway whose providers are down.
abbrev down : Gateway
down = record {
  is_configured = λ k. true;
  create_intent = λ k a. threw Error.upstream "timeout";
  capture_order = λ ref. threw Error.upstream "timeout";
  refund = λ k t a. threw Error.upstream "timeout";
}

abbrev by_paypal : CreatePaymentInput
by_paypal = record {
  provider = paypal;
  return_url = none;
  cancel_url = none;
  phone = none;
  operator = none;
  idempotency_key = none;
}

payable : check_payable 11 33 db ≡ (ok (buyer, unpaid_order), db)
unfolding check_payable get_by_supabase_id_or_fail find_order find
payable = refl

unpaid : payment_of 33 db ≡ none
unfolding payment_of find
unpaid = refl

new_id : find_payment (env.fresh 0) db ≡ none
unfolding find_payment find
new_id = refl

create_for_order-failed_for_good_example :
    let after = create_for_order down env 11 33 by_paypal db in
    (after.0 ≡ err Error.upstream)
    × (payment_of 33 after.1 ≡ some (failed_row "timeout" (new_payment env paypal unpaid_order)))
    × ((g' : Gateway) (env' : Env) (input' : CreatePaymentInput)
        → create_for_order g' env' 11 33 input' after.1
          ≡ (err (Error.domain ErrorCode.conflict 409), after.1))
create_for_order-failed_for_good_example =
    create_for_order-failed_for_good down env 11 33 by_paypal buyer unpaid_order Error.upstream
      "timeout" db payable unpaid new_id refl refl

its_payment : find_payment 40 db ≡ some pending_payment
unfolding find_payment find
its_payment = refl

-- The payment succeeds, and a late failure follows.
abbrev paid : WebhookEvent
paid = record { provider_ref = "R1"; outcome = WebhookOutcome.succeeded; failure_reason = none }

abbrev too_late : WebhookEvent
too_late = record { provider_ref = "R1"; outcome = WebhookOutcome.failed; failure_reason = none }

abbrev after_both : Db
after_both =
    (dispatch env paypal true (replied too_late) (dispatch env paypal true (replied paid) db).1).1

abbrev two_webhooks : Reach db after_both
two_webhooks =
    Reach.next (Reach.next Reach.here (Step.receives env paypal true (replied paid) refl))
      (Step.receives env paypal true (replied too_late) refl)

Reach-Later_example :
    (p' : Payment) × (find_payment 40 after_both ≡ some p')
    × Keeps pending_payment p'
    × Later pending_payment.status p'.status
Reach-Later_example = Reach-Later db after_both (tt, tt) two_webhooks 40 pending_payment its_payment

payments-UniqueIds : UniqueIds db.payments
payments-UniqueIds = (tt, tt)

apply_webhook_event-twice_example :
    let once = (apply_webhook_event env paypal paid db).1 in
    let twice = (apply_webhook_event later paypal paid once).1 in
    (twice.payments ≡ once.payments) × (twice.orders ≡ once.orders) × (twice.events ≡ once.events)
apply_webhook_event-twice_example =
    apply_webhook_event-twice env later paypal paid db payments-UniqueIds

-- A gateway that completes every capture.
abbrev completing : Gateway
completing = record down { capture_order = λ ref. replied true }

confirmable : IsConfirmable 11 40 pending_payment buyer open_order db
unfolding find_payment find_order find_by_supabase_id find
confirmable = record {
  found = refl;
  is_pending = refl;
  by_paypal = refl;
  is_user = refl;
  has_order = refl;
  is_buyer = refl;
}

names_other : given (some "R2") ≡ some "R2"
unfolding given
names_other = refl

confirm_payment-captures_example :
    find_payment 40 (confirm_payment completing env 11 40 (some "R2") db).1
    ≡ some (succeeded_row env (some "R1") pending_payment)
confirm_payment-captures_example =
    confirm_payment-captures completing env 11 40 pending_payment buyer open_order db confirmable
      refl (some "R2") "R2" names_other refl

named : find_by_ref paypal "R1" db ≡ some pending_payment
unfolding find_by_ref find has_ref
named = refl

its_order : find_order 30 db ≡ some open_order
unfolding find_order find
its_order = refl

still_open : is_final open_order.status ≡ false
unfolding is_final
still_open = refl

apply_webhook_event-cancels_order_example :
    let db' = (apply_webhook_event env paypal too_late db).1 in
    (payload : PaymentEvent) × (db'.events
      ≡ payment_event PaymentEventName.failed payload ∷ db.events)
    × (find_order 30 (on_payment_failed later payload db').1
        ≡ some (cancelled_row later open_order))
apply_webhook_event-cancels_order_example =
    apply_webhook_event-cancels_order env later paypal too_late pending_payment open_order db
      payments-UniqueIds named refl refl its_order still_open
