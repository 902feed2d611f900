-- ===== src/Payments/Life.antt =====
-- Each operation of src/modules/payments/payments.service.ts on the rows of the payments.
use bomboli_server.Prelude.{
  List, Change as TableChange, ℕ, ◌≡◌, ◌∙◌, inl, inr, refl, sym, subst, Bool, true, false, String,
  Option, none, some, find, by_id, find-own_id, find-id, UniqueIds, arith, Option-cases, Bool-cases,
  or_else, or_default,
}
use bomboli_server.Db.{
  Db, Env, Payment, PaymentStatus, ProviderKind, ok, Run-cases, payment_key, eq_provider, manual,
  paypal, AttemptKind, webhook, confirm, capture, refund,
}
use bomboli_server.Users.{get_by_supabase_id_or_fail}
use bomboli_server.Payments.Status.{can_transition, WebhookOutcome, outcome_to_status}
use bomboli_server.Payments.Gateway.{Gateway, provider_for, Reply-cases}
use bomboli_server.Payments.Marks.{find_payment, log_attempt}
use bomboli_server.Payments.Confirm.{
  confirm_payment, manual_confirm, refund_payment, check_confirm, refund_target, after_capture,
  capture_status,
}
use bomboli_server.Payments.Webhook.{
  WebhookEvent, find_by_ref, apply_outcome, apply_to, apply_webhook_event,
}
use bomboli_server.Payments.Advance.{
  Change, Advances, same, mark_succeeded-Change, mark_failed-Change, mark_cancelled-Change,
  mark_refunded-Change,
}

-- A change that starts from a state with the same payments.
Change-from : (db db₁ db' : Db) → db₁.payments ≡ db.payments → Change db₁ db' → Change db db'
Change-from db db₁ db' e c = record {
  rows = subst (λ (rows : List Payment). TableChange Advances rows db'.payments) e c.rows;
}

-- A webhook's step on the payment that it names.
apply_outcome-Change :
    (env : Env) (p : Payment) (event : WebhookEvent) (outcome : WebhookOutcome) (db : Db)
    → find_payment p.id db ≡ some p
    → Change db (apply_outcome env p event outcome db).1
unfolding apply_outcome
apply_outcome-Change env p event WebhookOutcome.succeeded db found =
    elim (Bool-cases (can_transition p.status PaymentStatus.succeeded)) [
      | inl can ↦
          subst (Change db) (ground (arith, can))
            (mark_succeeded-Change env p db found (some event.provider_ref) can)
      | inr cannot ↦ same (ground (arith, cannot))
    ]
apply_outcome-Change env p event WebhookOutcome.failed db found =
    elim (Bool-cases (can_transition p.status PaymentStatus.failed)) [
      | inl can ↦ subst (Change db) (ground (arith, can)) (
          mark_failed-Change env p db found
            (or_default "Provider reported failure" event.failure_reason) can)
      | inr cannot ↦ same (ground (arith, cannot))
    ]
apply_outcome-Change env p event WebhookOutcome.cancelled db found =
    elim (Bool-cases (can_transition p.status PaymentStatus.cancelled)) [
      | inl can ↦ subst (Change db) (ground (arith, can)) (mark_cancelled-Change env p db found can)
      | inr cannot ↦ same (ground (arith, cannot))
    ]
apply_outcome-Change env p event WebhookOutcome.refunded db found =
    elim (Bool-cases (can_transition p.status PaymentStatus.refunded)) [
      | inl can ↦ subst (Change db) (ground (arith, can)) (mark_refunded-Change env p db found can)
      | inr cannot ↦ same (ground (arith, cannot))
    ]
apply_outcome-Change env p event WebhookOutcome.ignored db found = same refl

apply_to-Change :
    (env : Env) (provider : ProviderKind) (event : WebhookEvent) (o : Option Payment) (db : Db)
    → ((p : Payment) → o ≡ some p → find_payment p.id db ≡ some p)
    → Change db (apply_to env provider event o db).1
unfolding apply_to find_payment log_attempt
apply_to-Change env provider event none db found = same refl
apply_to-Change env provider event (some p) db found =
    let db₁ =
      (log_attempt p.id webhook provider none none
        (or_default p.status (outcome_to_status event.outcome)) db).1 in
    Change-from db db₁ (apply_outcome env p event event.outcome db₁).1 refl
      (apply_outcome-Change env p event event.outcome db₁ (found p refl))

-- A webhook, whatever it says.
pub apply_webhook_event-Change :
    (env : Env) (provider : ProviderKind) (event : WebhookEvent) (db : Db)
    → UniqueIds db.payments
    → Change db (apply_webhook_event env provider event db).1
unfolding apply_webhook_event find_payment
apply_webhook_event-Change env provider event db u =
    apply_to-Change env provider event (find_by_ref provider event.provider_ref db) db
      (λ p e. find-own_id _ db.payments p u e)

own_id :
    (i : ℕ) (p : Payment) (db : Db) → find_payment i db ≡ some p → find_payment p.id db ≡ some p
unfolding find_payment
own_id i p db h =
    subst (λ (x : ℕ). find (by_id x) db.payments ≡ some p) (sym (find-id i db.payments p h)) h

logged : ℕ → AttemptKind → ProviderKind → Option ℕ → PaymentStatus → Db → Db
unfolding log_attempt
logged i kind provider amount status db = (log_attempt i kind provider none amount status db).1

find_payment-logged :
    (k i : ℕ) (kind : AttemptKind) (provider : ProviderKind) (amount : Option ℕ)
    (status : PaymentStatus) (db : Db)
    → find_payment k (logged i kind provider amount status db) ≡ find_payment k db
unfolding find_payment logged
find_payment-logged k i kind provider amount status db = refl

still_found :
    (i k : ℕ) (kind : AttemptKind) (provider : ProviderKind) (amount : Option ℕ)
    (status : PaymentStatus) (p : Payment) (db : Db)
    → find_payment i db ≡ some p
    → find_payment p.id (logged k kind provider amount status db) ≡ some p
still_found i k kind provider amount status p db e =
    find_payment-logged p.id k kind provider amount status db ∙ own_id i p db e

-- A manual confirmation.
pub manual_confirm-Change :
    (env : Env) (i : ℕ) (ref : Option String) (db : Db) → Change db (manual_confirm env i ref db).1
unfolding manual_confirm logged
manual_confirm-Change env i ref db = elim (Option-cases (find_payment i db)) [
  | inl none_there ↦ same (ground (arith, none_there))
  | inr (p, e) ↦ elim (Bool-cases (eq_provider p.provider manual)) [
    | inr other ↦ same (ground (arith, e, other))
    | inl is_manual ↦ elim (Bool-cases (can_transition p.status PaymentStatus.succeeded)) [
      | inr cannot ↦ same (ground (arith, e, is_manual, cannot))
      | inl can ↦
          let db₁ = logged p.id confirm manual none PaymentStatus.succeeded db in
          let to = or_else ref p.provider_ref in
          let step =
            mark_succeeded-Change env p db₁
              (still_found i p.id confirm manual none PaymentStatus.succeeded p db e) to can in
          Change-from db db₁ (manual_confirm env i ref db).1 refl
            (subst (Change db₁) (ground (arith, e, is_manual, can)) step)
    ]
  ]
]

-- A refund.
pub refund_payment-Change :
    (g : Gateway) (env : Env) (i : ℕ) (amount : Option ℕ) (db : Db)
    → Change db (refund_payment g env i amount db).1
unfolding refund_payment logged provider_for
refund_payment-Change g env i amount db = elim (Option-cases (find_payment i db)) [
  | inl none_there ↦ same (ground (arith, none_there))
  | inr (p, e) ↦ elim (Bool-cases (can_transition p.status PaymentStatus.refunded)) [
    | inr cannot ↦ same (ground (arith, e, cannot))
    | inl can ↦ elim (Bool-cases (g.is_configured p.provider)) [
      | inr off ↦ same (ground (arith, e, can, off))
      | inl on ↦ elim (Reply-cases (g.refund p.provider (refund_target p p.provider_ref) amount)) [
        | inr (x, message, down) ↦ same (ground (arith, e, can, on, down))
        | inl (_, up) ↦
            let db₁ = logged p.id refund p.provider amount PaymentStatus.refunded db in
            let step =
              mark_refunded-Change env p db₁
                (still_found i p.id refund p.provider amount PaymentStatus.refunded p db e) can in
            Change-from db db₁ (refund_payment g env i amount db).1 refl
              (subst (Change db₁) (ground (arith, e, can, on, up)) step)
      ]
    ]
  ]
]

check_confirm-pure :
    (g : Gateway) (actor : ℕ) (p : Payment) (override : Option String) (db : Db)
    → (check_confirm g actor p override db).1 ≡ db
unfolding check_confirm get_by_supabase_id_or_fail provider_for
check_confirm-pure g actor p override db = ground arith

check_confirm-pending :
    (g : Gateway) (actor : ℕ) (p : Payment) (override : Option String) (db db₁ : Db) (ref : String)
    → check_confirm g actor p override db ≡ (ok ref, db₁)
    → p.status ≡ PaymentStatus.pending
unfolding check_confirm get_by_supabase_id_or_fail provider_for
check_confirm-pending g actor p override db db₁ ref h = ground arith

pending-succeeded :
    (s : PaymentStatus)
    → s ≡ PaymentStatus.pending
    → can_transition s PaymentStatus.succeeded ≡ true
unfolding can_transition
pending-succeeded s e = rw e

after_capture-Change :
    (env : Env) (p : Payment) (ref : String) (completed : Bool) (db : Db)
    → find_payment p.id db ≡ some p
    → p.status ≡ PaymentStatus.pending
    → Change db (after_capture env p ref completed db).1
unfolding after_capture
after_capture-Change env p ref true db found pending =
    let step =
      mark_succeeded-Change env p db found (or_else p.provider_ref (some ref))
        (pending-succeeded p.status pending) in
    subst (Change db) (ground arith) step
after_capture-Change env p ref false db found pending = same refl

-- A confirmation by the buyer.
pub confirm_payment-Change :
    (g : Gateway) (env : Env) (actor i : ℕ) (override : Option String) (db : Db)
    → Change db (confirm_payment g env actor i override db).1
unfolding confirm_payment logged
confirm_payment-Change g env actor i override db = elim (Option-cases (find_payment i db)) [
  | inl none_there ↦ same (ground (arith, none_there))
  | inr (p, e) ↦ elim (Run-cases (check_confirm g actor p override db)) [
    | inr (x, db₁, k) ↦ same (ground (arith, e, k, check_confirm-pure g actor p override db))
    | inl (ref, db₁, k) ↦
        let still : db₁ ≡ db = ground (arith, k, check_confirm-pure g actor p override db) in
        elim (Reply-cases (g.capture_order ref)) [
          | inr (x, message, down) ↦ same (ground (arith, e, k, still, down))
          | inl (completed, up) ↦
              let db₂ = logged p.id capture paypal none (capture_status completed) db in
              let step =
                after_capture-Change env p ref completed db₂
                  (still_found i p.id capture paypal none (capture_status completed) p db e)
                  (check_confirm-pending g actor p override db db₁ ref k) in
              Change-from db db₂ (confirm_payment g env actor i override db).1 refl
                (subst (Change db₂) (ground (arith, e, k, still, up)) step)
        ]
  ]
]
