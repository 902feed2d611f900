-- ===== src/Payments/Providers/Events.antt =====
-- What the providers' webhook payloads mean: `translateEvent` of paypal.provider.ts,
-- pawapay.provider.ts and stripe.provider.ts in src/modules/payments/providers.
use text.Mathlib.Text.{◌==◌ as str_eq}
use bomboli_server.Prelude.{
  Bool, ◌||◌, String, Option, none, some, or_default, or_else, if◌then◌else◌,
}
use bomboli_server.Payments.Status.{WebhookOutcome, succeeded, failed, cancelled, refunded, ignored}
use bomboli_server.Payments.Webhook.{WebhookEvent}

-- `PayPalWebhookEvent`; `order_id` is `resource.supplementary_data.related_ids.order_id`.
pub record PaypalEvent : Type 0 where
  pub id : String
  pub event_type : String
  pub resource_id : Option String
  pub order_id : Option String

pub data EventKind : Type 0 where
  deposit refund : EventKind

-- `PawapayWebhookEvent`
pub record PawapayEvent : Type 0 where
  pub deposit_id : Option String
  pub refund_id : Option String
  pub kind : Option EventKind
  pub status : String
  pub failure_code : Option String
  pub failure_message : Option String

-- A Stripe event; `payment_intent` is present if that field of the object is a text.
pub record StripeEvent : Type 0 where
  pub id : String
  pub type : String
  pub payment_intent : Option String
  pub object_id : Option String
  pub last_payment_error : Option String

unfoldable paypal_outcome : String → WebhookOutcome
paypal_outcome event_type =
    if str_eq event_type "PAYMENT.CAPTURE.COMPLETED"
    then succeeded
    else if str_eq event_type "PAYMENT.CAPTURE.DENIED"
        || str_eq event_type "PAYMENT.CAPTURE.DECLINED"
    then failed
    else if str_eq event_type "CHECKOUT.ORDER.VOIDED"
        || str_eq event_type "PAYMENT.CAPTURE.REVERSED"
    then cancelled
    else if str_eq event_type "PAYMENT.CAPTURE.REFUNDED"
    then refunded
    else ignored

unfoldable pub translate_paypal : PaypalEvent → WebhookEvent
unfolding paypal_outcome
translate_paypal event = record {
  provider_ref = or_default "" (or_else event.order_id event.resource_id);
  outcome = paypal_outcome event.event_type;
  failure_reason = none;
}

unfoldable completed_outcome : Option EventKind → WebhookOutcome
completed_outcome (some refund) = refunded
completed_outcome _ = succeeded

unfoldable pawapay_outcome : PawapayEvent → WebhookOutcome
unfolding completed_outcome
pawapay_outcome event =
    if str_eq event.status "COMPLETED"
    then completed_outcome event.kind
    else if str_eq event.status "FAILED"
    then failed
    else if str_eq event.status "REJECTED"
    then cancelled
    else ignored

unfoldable pub translate_pawapay : PawapayEvent → WebhookEvent
unfolding pawapay_outcome
translate_pawapay event = record {
  provider_ref = or_default "" (or_else event.deposit_id event.refund_id);
  outcome = pawapay_outcome event;
  failure_reason =
      if str_eq event.status "FAILED"
      then or_else event.failure_message event.failure_code
      else none;
}

unfoldable is_intent_failure : String → Bool
is_intent_failure type =
    str_eq type "payment_intent.payment_failed" || str_eq type "payment_intent.canceled"

unfoldable stripe_outcome : String → WebhookOutcome
unfolding is_intent_failure
stripe_outcome type =
    if str_eq type "payment_intent.succeeded"
    then succeeded
    else if is_intent_failure type
    then (if str_eq type "payment_intent.canceled" then cancelled else failed)
    else if str_eq type "charge.refunded"
    then refunded
    else ignored

unfoldable pub translate_stripe : StripeEvent → WebhookEvent
unfolding stripe_outcome
translate_stripe event = record {
  provider_ref = or_default "" (or_else event.payment_intent event.object_id);
  outcome = stripe_outcome event.type;
  failure_reason = if is_intent_failure event.type then event.last_payment_error else none;
}
