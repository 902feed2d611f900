-- ===== src/Payments/Providers/Stripe.antt =====
-- src/modules/payments/providers/stripe.provider.ts and manual.provider.ts. Stripe's library is a
-- parameter.
use Prim.Native.String.{◌++◌}
use bomboli_server.Prelude.{⊤, ℕ, Bool, String, Option, none, some, if◌then◌else◌}
use bomboli_server.Db.{Currency, Error, ErrorCode, Result, ok, err}
use bomboli_server.Payments.Gateway.{IntentArgs, IntentResult}
use bomboli_server.Payments.Webhook.{WebhookEvent}
use bomboli_server.Payments.Providers.{
  Headers, not_configured, signature_missing, signature_invalid, filled, pick_header,
}
use bomboli_server.Payments.Providers.Events.{StripeEvent, translate_stripe}

-- `cfg.stripe`
pub record Config : Type 0 where
  pub enabled : Bool
  pub secret_key : Option String
  pub webhook_secret : Option String

-- The arguments of `paymentIntents.create`.
pub record IntentRequest : Type 0 where
  pub amount : ℕ
  pub currency : Currency
  pub payment_id : ℕ
  pub order_id : ℕ
  pub receipt_email : String
  pub request_key : Option String

pub record Intent : Type 0 where
  pub id : String
  pub client_secret : String

-- The library, which answers or throws. `construct_event` checks a body against its signature and
-- the secret.
pub record Client : Type 0 where
  pub create_intent : IntentRequest → Option Intent
  pub create_refund : String → Option ℕ → Bool
  pub construct_event : String → String → String → Option StripeEvent

unfoldable intent_request : IntentArgs → IntentRequest
unfolding filled
intent_request args = record {
  amount = args.amount_cents;
  currency = args.currency;
  payment_id = args.payment_id;
  order_id = args.order_id;
  receipt_email = args.buyer_email;
  request_key = filled args.idempotency_key;
}

-- `payload_of` writes the JSON of the client's payload around the secret.
unfoldable pub created : (String → String) → Option Intent → Result IntentResult
created payload_of none = err Error.upstream
created payload_of (some i) =
    ok (record { provider_ref = i.id; client_payload = payload_of i.client_secret })

unfoldable pub create_intent :
    Config → Client → (String → String) → IntentArgs → Result IntentResult
unfolding filled intent_request created
create_intent cfg client payload_of args = elim (filled cfg.secret_key) [
  | none ↦ err not_configured
  | some _ ↦ created payload_of (client.create_intent (intent_request args))
]

unfoldable constructed : Option StripeEvent → Result WebhookEvent
constructed none = err signature_invalid
constructed (some event) = ok (translate_stripe event)

unfoldable pub verify_and_parse_webhook : Config → Client → String → Headers → Result WebhookEvent
unfolding filled pick_header constructed
verify_and_parse_webhook cfg client raw_body headers = elim (filled cfg.webhook_secret) [
  | none ↦ err not_configured
  | some secret ↦ elim (filled (pick_header headers "stripe-signature")) [
    | none ↦ err signature_missing
    | some signature ↦ constructed (client.construct_event raw_body signature secret)
  ]
]

unfoldable pub refund_intent : Config → Client → String → Option ℕ → Result ⊤
unfolding filled
refund_intent cfg client ref amount_cents = elim (filled cfg.secret_key) [
  | none ↦ err not_configured
  | some _ ↦ if client.create_refund ref amount_cents then ok tt else err Error.upstream
]

-- The manual provider calls nobody; `text_of` writes an id as text.
unfoldable pub manual_intent : (ℕ → String) → String → IntentArgs → IntentResult
manual_intent text_of payload args = record {
  provider_ref = "manual-" ++ text_of args.payment_id;
  client_payload = payload;
}

unfoldable manual_webhook : Result WebhookEvent
manual_webhook = err (Error.domain ErrorCode.forbidden 403)

unfoldable pub manual_refund : Result ⊤
manual_refund = ok tt
