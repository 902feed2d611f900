-- ===== src/Payments/Status.antt =====
-- The payment's life: `ALLOWED_TRANSITIONS`, `canTransition` and `outcomeToStatus` of
-- src/modules/payments/payments.service.ts.
use bomboli_server.Prelude.{Bool, false, ◌||◌, Option, none, some, List, [], ◌∷◌, if◌then◌else◌}
use bomboli_server.Db.{PaymentStatus, eq_payment_status}

unfoldable pub next_statuses : PaymentStatus → List PaymentStatus
next_statuses PaymentStatus.pending =
    PaymentStatus.succeeded ∷ PaymentStatus.failed ∷ PaymentStatus.cancelled ∷ []
next_statuses PaymentStatus.succeeded = PaymentStatus.refunded ∷ []
next_statuses PaymentStatus.failed = []
next_statuses PaymentStatus.cancelled = []
next_statuses PaymentStatus.refunded = []

unfoldable pub includes : PaymentStatus → List PaymentStatus → Bool
includes s [] = false
includes s (t ∷ ts) = eq_payment_status t s || includes s ts

unfoldable pub can_transition : PaymentStatus → PaymentStatus → Bool
unfolding next_statuses includes
can_transition from to =
    if eq_payment_status from to then false else includes to (next_statuses from)

-- `WebhookOutcome`
pub data WebhookOutcome : Type 0 where
  succeeded failed cancelled refunded ignored : WebhookOutcome

unfoldable pub outcome_to_status : WebhookOutcome → Option PaymentStatus
outcome_to_status WebhookOutcome.succeeded = some PaymentStatus.succeeded
outcome_to_status WebhookOutcome.failed = some PaymentStatus.failed
outcome_to_status WebhookOutcome.cancelled = some PaymentStatus.cancelled
outcome_to_status WebhookOutcome.refunded = some PaymentStatus.refunded
outcome_to_status WebhookOutcome.ignored = none
