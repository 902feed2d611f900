-- ===== src/Payments/History.antt =====
-- The payments over any number of requests and webhooks, in any order: all the operations of
-- src/modules/payments/payments.service.ts and of webhooks/payment-webhooks.controller.ts.
use bomboli_server.Prelude.{
  Change-UniqueIds, ℕ, ◌≡◌, ◌∙◌, ◌⊎◌, inl, refl, subst, Bool, true, false, String, Option, none,
  some, UniqueIds, arith, sym,
}
use bomboli_server.Db.{Db, Env, Payment, PaymentStatus, ProviderKind, payment_key}
use bomboli_server.Payments.Status.{can_transition, WebhookOutcome}
use bomboli_server.Payments.Gateway.{Gateway, Reply, replied, threw}
use bomboli_server.Payments.Marks.{find_payment}
use bomboli_server.Payments.Create.{CreatePaymentInput, create_for_order}
use bomboli_server.Payments.Confirm.{confirm_payment, manual_confirm, refund_payment}
use bomboli_server.Payments.Webhook.{WebhookEvent, dispatch, dispatch_event}
use bomboli_server.Payments.Advance.{Change, same, Keeps, Moves, Advances, Change-found}
use bomboli_server.Payments.Life.{
  apply_webhook_event-Change, manual_confirm-Change, refund_payment-Change, confirm_payment-Change,
}
use bomboli_server.Payments.Opening.{create_for_order-Change}

-- One request of the payments module, or anything that leaves the payments alone. A new payment
-- gets an id that is not in use.
pub data Step (db db' : Db) : Type 0 where
  creates :
      (g : Gateway) (env : Env) (actor i : ℕ) (input : CreatePaymentInput)
      → find_payment (env.fresh 0) db ≡ none
      → db' ≡ (create_for_order g env actor i input db).1
      → Step db db'
  confirms :
      (g : Gateway) (env : Env) (actor i : ℕ) (override : Option String)
      → db' ≡ (confirm_payment g env actor i override db).1
      → Step db db'
  confirms_manually :
      (env : Env) (i : ℕ) (ref : Option String)
      → db' ≡ (manual_confirm env i ref db).1
      → Step db db'
  refunds :
      (g : Gateway) (env : Env) (i : ℕ) (amount : Option ℕ)
      → db' ≡ (refund_payment g env i amount db).1
      → Step db db'
  receives :
      (env : Env) (kind : ProviderKind) (body : Bool) (verdict : Reply WebhookEvent)
      → db' ≡ (dispatch env kind body verdict db).1
      → Step db db'
  elsewhere : db'.payments ≡ db.payments → Step db db'

pub data Reach (db : Db) : Db → Type 0 where
  here : Reach db db
  next : {mid db' : Db} → Reach db mid → Step mid db' → Reach db db'

dispatch_event-Change :
    (env : Env) (kind : ProviderKind) (outcome : WebhookOutcome) (event : WebhookEvent) (db : Db)
    → UniqueIds db.payments
    → Change db (dispatch_event env kind outcome event db).1
unfolding dispatch_event
dispatch_event-Change env kind WebhookOutcome.ignored event db u = same refl
dispatch_event-Change env kind _ event db u = apply_webhook_event-Change env kind event db u

dispatch-Change :
    (env : Env) (kind : ProviderKind) (body : Bool) (verdict : Reply WebhookEvent) (db : Db)
    → UniqueIds db.payments
    → Change db (dispatch env kind body verdict db).1
unfolding dispatch
dispatch-Change env kind false verdict db u = same refl
dispatch-Change env kind true (threw e message) db u = same refl
dispatch-Change env kind true (replied event) db u =
    dispatch_event-Change env kind event.outcome event db u

Step-Change : (db db' : Db) → UniqueIds db.payments → Step db db' → Change db db'
Step-Change db db' u (creates g env actor i input new e) =
    subst (Change db) (sym e) (create_for_order-Change g env actor i input db new)
Step-Change db db' u (confirms g env actor i override e) =
    subst (Change db) (sym e) (confirm_payment-Change g env actor i override db)
Step-Change db db' u (confirms_manually env i ref e) =
    subst (Change db) (sym e) (manual_confirm-Change env i ref db)
Step-Change db db' u (refunds g env i amount e) =
    subst (Change db) (sym e) (refund_payment-Change g env i amount db)
Step-Change db db' u (receives env kind body verdict e) =
    subst (Change db) (sym e) (dispatch-Change env kind body verdict db u)
Step-Change db db' u (elsewhere e) = same e

-- No operation gives two payments one id.
Reach-UniqueIds : (db db' : Db) → UniqueIds db.payments → Reach db db' → UniqueIds db'.payments
Reach-UniqueIds db db' u here = u
Reach-UniqueIds db db' u (next {mid = mid} r s) =
    let v = Reach-UniqueIds db mid u r in
    Change-UniqueIds Advances mid.payments db'.payments (Step-Change mid db' v s).rows v

-- Where a payment may get to: anywhere while it is pending, and from a success to a refund.
abbrev pub Later : PaymentStatus → PaymentStatus → Type 0
Later from to =
    (to ≡ from)
    ⊎ (from ≡ PaymentStatus.pending)
    ⊎ ((from ≡ PaymentStatus.succeeded) × (to ≡ PaymentStatus.refunded))

Moves-Later : (from to : PaymentStatus) → Moves from to → Later from to
unfolding can_transition
Moves-Later from to m = ground (arith, m)

Later-Moves : (a b c : PaymentStatus) → Later a b → Moves b c → Later a c
unfolding can_transition
Later-Moves a b c l m = ground (arith, l, m)

Keeps-trans : (p q r : Payment) → Keeps p q → Keeps q r → Keeps p r
Keeps-trans p q r k l = record {
  same_id = l.same_id ∙ k.same_id;
  same_order = l.same_order ∙ k.same_order;
  same_provider = l.same_provider ∙ k.same_provider;
  same_amount = l.same_amount ∙ k.same_amount;
  same_currency = l.same_currency ∙ k.same_currency;
}

-- Over any sequence of requests and webhooks a payment keeps its order, provider, amount and
-- currency, and its status only moves on: a pending one may change, a succeeded one can only be
-- refunded, and a failed, cancelled or refunded one stays so for ever; if no two payments have
-- one id.
pub Reach-Later :
    (db db' : Db)
    → UniqueIds db.payments
    → Reach db db'
    → (k : ℕ) (p : Payment) → find_payment k db ≡ some p
    → (p' : Payment) × (find_payment k db' ≡ some p') × Keeps p p' × Later p.status p'.status
Reach-Later db db' u here k p e = (
  p,
  e,
  record {
    same_id = refl;
    same_order = refl;
    same_provider = refl;
    same_amount = refl;
    same_currency = refl;
  },
  inl refl,
)
Reach-Later db db' u (next {mid = mid} r s) k p e =
    let (q, f, kept, later) = Reach-Later db mid u r k p e in
    let (q', f', (kept', moves)) =
      Change-found mid db' (Step-Change mid db' (Reach-UniqueIds db mid u r) s) k q f in
    (q', f', Keeps-trans p q q' kept kept', Later-Moves p.status q.status q'.status later moves)
