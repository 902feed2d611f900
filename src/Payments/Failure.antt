-- ===== src/Payments/Failure.antt =====
-- A payment that fails: `applyWebhookEvent` of src/modules/payments/payments.service.ts, and the
-- listener of its event in src/modules/orders/orders.payment-listener.ts.
use bomboli_server.Prelude.{
  ◌≡◌, ◌∙◌, refl, ap, false, String, none, some, ◌∷◌, find, update, by_id, find-own_id, find-id,
  find-update_self, map_some, UniqueIds, or_default, inl, inr, arith,
}
use bomboli_server.Db.{
  Db, Env, Order, Payment, PaymentStatus, PaymentEvent, PaymentEventName, payment_event,
  ProviderKind, webhook, payment_key, order_key,
}
use bomboli_server.Orders.Access.{find_order}
use bomboli_server.Orders.Cancel.{cancelled_row, is_final, on_payment_failed}
use bomboli_server.Orders.Cancel.Effects.{cancel_by_system-cases}
use bomboli_server.Payments.Status.{WebhookOutcome, can_transition, outcome_to_status}
use bomboli_server.Payments.Marks.{find_payment, log_attempt, failed_row, mark_failed}
use bomboli_server.Payments.Webhook.{
  WebhookEvent, find_by_ref, apply_outcome, apply_to, apply_webhook_event,
}
use bomboli_server.Payments.Advance.{update_payment-stored}

abbrev failure_of : WebhookEvent → String
failure_of event = or_default "Provider reported failure" event.failure_reason

abbrev pub payload_of : Env → Payment → String → PaymentEvent
payload_of env p reason = record {
  payment_id = p.id;
  order_id = p.order_id;
  provider = p.provider;
  amount_cents = p.amount_cents;
  currency = p.currency;
  at = env.now;
  failure_reason = some reason;
}

mark_failed-stored :
    (env : Env) (p : Payment) (reason : String) (db : Db)
    → find_payment p.id db ≡ some p
    → (mark_failed env p.id reason db).1 ≡ record db {
      payments = update (by_id p.id) (failed_row reason) db.payments;
      events = payment_event PaymentEventName.failed (payload_of env p reason) ∷ db.events;
    }
unfolding mark_failed
mark_failed-stored env p reason db found = ground (
  arith,
  update_payment-stored p.id p (failed_row reason) db found (λ q. record {
    same_id = refl;
    same_order = refl;
    same_provider = refl;
    same_amount = refl;
    same_currency = refl;
  }),
)

-- The listener cancels an order that is still open.
listener-cancels :
    (env : Env) (payload : PaymentEvent) (order : Order) (db : Db)
    → find_order payload.order_id db ≡ some order
    → is_final order.status ≡ false
    → find_order payload.order_id (on_payment_failed env payload db).1
      ≡ some (cancelled_row env order)
unfolding on_payment_failed find_order
listener-cancels env payload order db found going =
    elim (cancel_by_system-cases env payload.order_id db) [
      | inr (final, c) ↦ absurd (ground (arith, final order found, going))
      | inl (o, f, g, c) ↦
          let i = payload.order_id in
          let at_i : o.id ≡ i = find-id i db.orders o f in
          ap (λ s. find (by_id i) s.1.orders) c
          ∙ ap (λ x. find (by_id i) (update (by_id x) (cancelled_row env) db.orders)) at_i
          ∙ find-update_self i (cancelled_row env) (λ q. refl) db.orders
          ∙ ap (map_some (cancelled_row env)) found
    ]

apply_outcome-failed :
    (env : Env) (p : Payment) (event : WebhookEvent) (outcome : WebhookOutcome) (db : Db)
    → outcome ≡ WebhookOutcome.failed
    → p.status ≡ PaymentStatus.pending
    → (apply_outcome env p event outcome db).1 ≡ (mark_failed env p.id (failure_of event) db).1
unfolding apply_outcome can_transition
apply_outcome-failed env p event WebhookOutcome.failed db e pending = ground (arith, pending)
apply_outcome-failed env p event WebhookOutcome.succeeded db e pending = absurd (cc)
apply_outcome-failed env p event WebhookOutcome.cancelled db e pending = absurd (cc)
apply_outcome-failed env p event WebhookOutcome.refunded db e pending = absurd (cc)
apply_outcome-failed env p event WebhookOutcome.ignored db e pending = absurd (cc)

-- A webhook that reports the failure of a pending payment emits one event, and the listener of that
-- event cancels the order of the payment, if the order is still open; if no two payments have one
-- id.
pub apply_webhook_event-cancels_order :
    (env later : Env) (kind : ProviderKind) (event : WebhookEvent) (p : Payment) (order : Order)
    (db : Db)
    → UniqueIds db.payments
    → find_by_ref kind event.provider_ref db ≡ some p
    → p.status ≡ PaymentStatus.pending
    → event.outcome ≡ WebhookOutcome.failed
    → find_order p.order_id db ≡ some order
    → is_final order.status ≡ false
    → let db' = (apply_webhook_event env kind event db).1 in
      (payload : PaymentEvent) × (db'.events
        ≡ payment_event PaymentEventName.failed payload ∷ db.events)
      × (find_order p.order_id (on_payment_failed later payload db').1
          ≡ some (cancelled_row later order))
unfolding apply_webhook_event apply_to log_attempt find_by_ref find_payment find_order
apply_webhook_event-cancels_order env later kind event p order db unique found pending is_failed
      has_order going =
    let reason = failure_of event in
    let payload = payload_of env p reason in
    let db₁ =
      (log_attempt p.id webhook kind none none
        (or_default p.status (outcome_to_status event.outcome)) db).1 in
    let own = find-own_id _ db.payments p unique found in
    let db' = (apply_webhook_event env kind event db).1 in
    let failing : db' ≡ (mark_failed env p.id reason db₁).1 =
      ground (arith, found, apply_outcome-failed env p event event.outcome db₁ is_failed pending) in
    let ends = failing ∙ mark_failed-stored env p reason db₁ own in
    let still : find_order payload.order_id db' ≡ some order =
      ap (λ (d : Db). find_order p.order_id d) ends ∙ has_order in
    (payload, ap (λ (d : Db). d.events) ends, listener-cancels later payload order db' still going)
