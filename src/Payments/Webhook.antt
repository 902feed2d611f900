-- ===== src/Payments/Webhook.antt =====
-- `applyWebhookEvent` of src/modules/payments/payments.service.ts, and `dispatch` of
-- src/modules/payments/webhooks/payment-webhooks.controller.ts.
use text.Mathlib.Text.{◌==◌ as str_eq}
use bomboli_server.Prelude.{
  ⊤, ◌&&◌, Bool, true, false, String, Option, none, some, find, or_default, if◌then◌else◌,
}
use bomboli_server.Db.{
  Db, Env, Payment, PaymentStatus, ProviderKind, webhook, Error, Action, pure, gets, throw, ◌>>=◌,
  ◌>>◌, eq_provider,
}
use bomboli_server.Payments.Status.{WebhookOutcome, can_transition, outcome_to_status}
use bomboli_server.Payments.Gateway.{Reply, replied, threw}
use bomboli_server.Payments.Marks.{
  log_attempt, mark_succeeded, mark_failed, mark_cancelled, mark_refunded,
}

-- `WebhookEvent`
pub record WebhookEvent : Type 0 where
  pub provider_ref : String
  pub outcome : WebhookOutcome
  pub failure_reason : Option String

unfoldable pub has_ref : String → Option String → Bool
has_ref ref none = false
has_ref ref (some r) = str_eq r ref

-- `findFirst({ where: { provider, providerRef } })`
unfoldable pub find_by_ref : ProviderKind → String → Db → Option Payment
unfolding has_ref
find_by_ref provider ref db =
    find (λ p. eq_provider p.provider provider && has_ref ref p.provider_ref) db.payments

-- A step that is taken only if the payment may go there.
unfoldable mark_if : PaymentStatus → PaymentStatus → Action Payment → Action ⊤
mark_if from to mark = if can_transition from to then (mark >>= λ _. pure tt) else pure tt

unfoldable pub apply_outcome : Env → Payment → WebhookEvent → WebhookOutcome → Action ⊤
unfolding mark_if
apply_outcome env p event WebhookOutcome.succeeded =
    mark_if p.status PaymentStatus.succeeded (mark_succeeded env p.id (some event.provider_ref))
apply_outcome env p event WebhookOutcome.failed =
    mark_if p.status PaymentStatus.failed
      (mark_failed env p.id (or_default "Provider reported failure" event.failure_reason))
apply_outcome env p event WebhookOutcome.cancelled =
    mark_if p.status PaymentStatus.cancelled (mark_cancelled env p.id)
apply_outcome env p event WebhookOutcome.refunded =
    mark_if p.status PaymentStatus.refunded (mark_refunded env p.id)
apply_outcome env p event WebhookOutcome.ignored = pure tt

unfoldable pub apply_to : Env → ProviderKind → WebhookEvent → Option Payment → Action ⊤
unfolding apply_outcome
apply_to env provider event none = pure tt
apply_to env provider event (some p) = do
  log_attempt p.id webhook provider none none
      (or_default p.status (outcome_to_status event.outcome))
  apply_outcome env p event event.outcome

unfoldable pub apply_webhook_event : Env → ProviderKind → WebhookEvent → Action ⊤
unfolding apply_to find_by_ref
apply_webhook_event env provider event = do
  apply_to env provider event (← gets (find_by_ref provider event.provider_ref))

unfoldable pub dispatch_event : Env → ProviderKind → WebhookOutcome → WebhookEvent → Action ⊤
dispatch_event env kind WebhookOutcome.ignored event = pure tt
dispatch_event env kind _ event = apply_webhook_event env kind event

-- A delivery: whether the request has a body, and what the provider's signature check and parser
-- make of it.
unfoldable pub dispatch : Env → ProviderKind → Bool → Reply WebhookEvent → Action ⊤
unfolding dispatch_event
dispatch env kind false verdict = throw Error.bad_request
dispatch env kind true (threw e message) = throw e
dispatch env kind true (replied event) = dispatch_event env kind event.outcome event
