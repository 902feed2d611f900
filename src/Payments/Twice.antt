-- ===== src/Payments/Twice.antt =====
-- One webhook delivered twice: `applyWebhookEvent` of src/modules/payments/payments.service.ts.

use text.Mathlib.TextPositions.{eq_refl}
use bomboli_server.Prelude.{
  ◌≡◌, ◌&&◌, inl, inr, refl, Bool, true, false, String, Option, none, some, update, by_id,
  find-true, find-own_id, find-update_found, UniqueIds, or_default, arith, Option-cases, Bool-cases,
}
use bomboli_server.Db.{
  Db, Env, Payment, PaymentStatus, ProviderKind, ok, webhook, payment_key, eq_provider,
}
use bomboli_server.Payments.Status.{WebhookOutcome, can_transition, outcome_to_status}
use bomboli_server.Payments.Marks.{
  find_payment, log_attempt, succeeded_row, failed_row, cancelled_row, refunded_row, mark_succeeded,
  mark_failed, mark_cancelled, mark_refunded, link_payment,
}
use bomboli_server.Payments.Webhook.{
  WebhookEvent, has_ref, find_by_ref, apply_outcome, apply_to, apply_webhook_event,
}
use bomboli_server.Payments.Advance.{Keeps, update_payment-stored, update_order-payments}

-- Whether a payment of the status takes the step that the outcome asks for.
unfoldable moves_on : PaymentStatus → WebhookOutcome → Bool
moves_on from outcome = elim (outcome_to_status outcome) [
  | none ↦ false
  | some to ↦ can_transition from to
]

abbrev row_after : Env → WebhookEvent → WebhookOutcome → Payment → Payment
row_after env event WebhookOutcome.succeeded = succeeded_row env (some event.provider_ref)
row_after env event WebhookOutcome.failed =
    failed_row (or_default "Provider reported failure" event.failure_reason)
row_after env event WebhookOutcome.cancelled = cancelled_row
row_after env event WebhookOutcome.refunded = refunded_row
row_after env event WebhookOutcome.ignored = λ p. p

apply_outcome-stays :
    (env : Env) (p : Payment) (event : WebhookEvent) (outcome : WebhookOutcome) (db : Db)
    → moves_on p.status outcome ≡ false
    → apply_outcome env p event outcome db ≡ (ok tt, db)
unfolding apply_outcome moves_on outcome_to_status
apply_outcome-stays env p event WebhookOutcome.succeeded db h = ground (arith, h)
apply_outcome-stays env p event WebhookOutcome.failed db h = ground (arith, h)
apply_outcome-stays env p event WebhookOutcome.cancelled db h = ground (arith, h)
apply_outcome-stays env p event WebhookOutcome.refunded db h = ground (arith, h)
apply_outcome-stays env p event WebhookOutcome.ignored db h = refl

row_after-Keeps :
    (env : Env) (event : WebhookEvent) (outcome : WebhookOutcome) (p : Payment)
    → Keeps p (row_after env event outcome p)
row_after-Keeps env event WebhookOutcome.succeeded p = record {
  same_id = refl;
  same_order = refl;
  same_provider = refl;
  same_amount = refl;
  same_currency = refl;
}
row_after-Keeps env event WebhookOutcome.failed p = record {
  same_id = refl;
  same_order = refl;
  same_provider = refl;
  same_amount = refl;
  same_currency = refl;
}
row_after-Keeps env event WebhookOutcome.cancelled p = record {
  same_id = refl;
  same_order = refl;
  same_provider = refl;
  same_amount = refl;
  same_currency = refl;
}
row_after-Keeps env event WebhookOutcome.refunded p = record {
  same_id = refl;
  same_order = refl;
  same_provider = refl;
  same_amount = refl;
  same_currency = refl;
}
row_after-Keeps env event WebhookOutcome.ignored p = record {
  same_id = refl;
  same_order = refl;
  same_provider = refl;
  same_amount = refl;
  same_currency = refl;
}

apply_outcome-payments :
    (env : Env) (p : Payment) (event : WebhookEvent) (outcome : WebhookOutcome) (db : Db)
    → find_payment p.id db ≡ some p
    → moves_on p.status outcome ≡ true
    → (apply_outcome env p event outcome db).1.payments
      ≡ update (by_id p.id) (row_after env event outcome) db.payments
unfolding apply_outcome moves_on outcome_to_status mark_succeeded mark_failed mark_cancelled
    mark_refunded
apply_outcome-payments env p event WebhookOutcome.succeeded db found moves =
    let row = row_after env event WebhookOutcome.succeeded in
    let stored =
      update_payment-stored p.id p row db found
        (row_after-Keeps env event WebhookOutcome.succeeded) in
    ground (
      arith,
      moves,
      stored,
      update_order-payments p.order_id (link_payment env p.id)
          (record db { payments = update (by_id p.id) row db.payments }),
    )
apply_outcome-payments env p event WebhookOutcome.failed db found moves = ground (
  arith,
  moves,
  update_payment-stored p.id p (row_after env event WebhookOutcome.failed) db found
      (row_after-Keeps env event WebhookOutcome.failed),
)
apply_outcome-payments env p event WebhookOutcome.cancelled db found moves = ground (
  arith,
  moves,
  update_payment-stored p.id p (row_after env event WebhookOutcome.cancelled) db found
      (row_after-Keeps env event WebhookOutcome.cancelled),
)
apply_outcome-payments env p event WebhookOutcome.refunded db found moves = ground (
  arith,
  moves,
  update_payment-stored p.id p (row_after env event WebhookOutcome.refunded) db found
      (row_after-Keeps env event WebhookOutcome.refunded),
)
apply_outcome-payments env p event WebhookOutcome.ignored db found moves =
    absurd (ground (arith, moves))

-- The step is not taken a second time.
row_after-done :
    (env : Env) (event : WebhookEvent) (outcome : WebhookOutcome) (p : Payment)
    → moves_on p.status outcome ≡ true
    → moves_on (row_after env event outcome p).status outcome ≡ false
unfolding moves_on outcome_to_status can_transition
row_after-done env event WebhookOutcome.succeeded p h = refl
row_after-done env event WebhookOutcome.failed p h = refl
row_after-done env event WebhookOutcome.cancelled p h = refl
row_after-done env event WebhookOutcome.refunded p h = refl
row_after-done env event WebhookOutcome.ignored p h = refl

-- The new row is still the one that the reference names.
row_after-ref :
    (env : Env) (event : WebhookEvent) (outcome : WebhookOutcome) (p : Payment)
    → has_ref event.provider_ref p.provider_ref ≡ true
    → has_ref event.provider_ref (row_after env event outcome p).provider_ref ≡ true
unfolding has_ref
row_after-ref env event WebhookOutcome.succeeded p h = eq_refl event.provider_ref
row_after-ref env event WebhookOutcome.failed p h = h
row_after-ref env event WebhookOutcome.cancelled p h = h
row_after-ref env event WebhookOutcome.refunded p h = h
row_after-ref env event WebhookOutcome.ignored p h = h

names : ProviderKind → String → Payment → Bool
unfolding has_ref
names kind ref p = eq_provider p.provider kind && has_ref ref p.provider_ref

module _ (kind : ProviderKind) (event : WebhookEvent) where
  abbrev found_by : Db → Option Payment
  found_by = find_by_ref kind event.provider_ref

  -- A delivery that finds a payment which does not move on leaves everything but the log.
  blocked :
      (env : Env) (p : Payment) (db : Db)
      → found_by db ≡ some p
      → moves_on p.status event.outcome ≡ false
      → let db' = (apply_webhook_event env kind event db).1 in
        (db'.payments ≡ db.payments) × (db'.orders ≡ db.orders) × (db'.events ≡ db.events)
  unfolding apply_webhook_event apply_to log_attempt
  blocked env p db found stays =
      let db₁ =
        (log_attempt p.id webhook kind none none
          (or_default p.status (outcome_to_status event.outcome)) db).1 in
      let ends : (apply_webhook_event env kind event db).1 ≡ db₁ =
        ground (arith, found, apply_outcome-stays env p event event.outcome db₁ stays) in
      rw ends (refl, refl, refl)

  unknown :
      (env : Env) (db : Db)
      → found_by db ≡ none
      → apply_webhook_event env kind event db ≡ (ok tt, db)
  unfolding apply_webhook_event apply_to
  unknown env db none_there = ground (arith, none_there)

  found_still :
      (env : Env) (p : Payment) (db : Db)
      → found_by db ≡ some p
      → moves_on p.status event.outcome ≡ false
      → found_by (apply_webhook_event env kind event db).1 ≡ some p
  unfolding find_by_ref
  found_still env p db found stays = rw ((blocked env p db found stays).0) found

  -- After a step the reference names the payment in its new status.
  found_after :
      (env : Env) (p : Payment) (db : Db)
      → UniqueIds db.payments
      → found_by db ≡ some p
      → moves_on p.status event.outcome ≡ true
      → found_by (apply_webhook_event env kind event db).1
        ≡ some (row_after env event event.outcome p)
  unfolding apply_webhook_event apply_to log_attempt find_by_ref find_payment names
  found_after env p db unique found moves =
      let row = row_after env event event.outcome in
      let db₁ =
        (log_attempt p.id webhook kind none none
          (or_default p.status (outcome_to_status event.outcome)) db).1 in
      let own = find-own_id (names kind event.provider_ref) db.payments p unique found in
      let wrote = apply_outcome-payments env p event event.outcome db₁ own moves in
      let passes = find-true (names kind event.provider_ref) db.payments p found in
      let kept = row_after-Keeps env event event.outcome p in
      let still = row_after-ref env event event.outcome p (ground (arith, passes)) in
      let again : names kind event.provider_ref (row p) ≡ true =
        ground (arith, passes, kept.same_provider, still) in
      let ends : (apply_webhook_event env kind event db).1.payments
          ≡ update (by_id p.id) row db.payments =
        ground (arith, found, wrote) in
      rw ends
        (find-update_found (names kind event.provider_ref) row db.payments p unique found again)

-- Of a webhook that is delivered twice in a row, with nothing in between and whatever the times, the
-- second delivery changes no payment and no order and emits no event; if no two payments have one
-- id.
pub apply_webhook_event-twice :
    (env later : Env) (kind : ProviderKind) (event : WebhookEvent) (db : Db)
    → UniqueIds db.payments
    → let once = (apply_webhook_event env kind event db).1 in
      let twice = (apply_webhook_event later kind event once).1 in
      (twice.payments ≡ once.payments) × (twice.orders ≡ once.orders) × (twice.events ≡ once.events)
apply_webhook_event-twice env later kind event db unique =
    elim (Option-cases (found_by kind event db)) [
      | inl n ↦
          let once = unknown kind event env db n in
          rw (once, unknown kind event later db n) (refl, refl, refl)
      | inr (p, found) ↦ elim (Bool-cases (moves_on p.status event.outcome)) [
        | inl moves ↦
            let once = (apply_webhook_event env kind event db).1 in
            blocked kind event later (row_after env event event.outcome p) once
              (found_after kind event env p db unique found moves)
              (row_after-done env event event.outcome p moves)
        | inr stays ↦
            let once = (apply_webhook_event env kind event db).1 in
            blocked kind event later p once (found_still kind event env p db found stays) stays
      ]
    ]
