-- ===== src/Payments/Advance.antt =====
-- How the writes of src/modules/payments/payments.service.ts change the rows of the payments.
use bomboli_server.Prelude.{
  Change as TableChange, same as rows_same, opened as rows_opened, moved,
  Change-found as TableChange-found, ℕ, ◌≡◌, ◌⊎◌, inl, inr, refl, true, String, Option, none, some,
  ◌∷◌, update, by_id, find-update_self, arith,
}
use bomboli_server.Db.{Db, Env, Order, Payment, PaymentStatus, ok, payment_key}
use bomboli_server.Orders.Transition.{update_order}
use bomboli_server.Payments.Status.{can_transition}
use bomboli_server.Payments.Marks.{
  find_payment, update_payment, succeeded_row, failed_row, cancelled_row, refunded_row,
  mark_succeeded, mark_failed, mark_cancelled, mark_refunded, link_payment,
}

-- What no write changes of a payment.
pub record Keeps (p p' : Payment) : Type 0 where
  pub same_id : p'.id ≡ p.id
  pub same_order : p'.order_id ≡ p.order_id
  pub same_provider : p'.provider ≡ p.provider
  pub same_amount : p'.amount_cents ≡ p.amount_cents
  pub same_currency : p'.currency ≡ p.currency

-- One step of the life of a payment, or none.
abbrev pub Moves : PaymentStatus → PaymentStatus → Type 0
Moves from to = (to ≡ from) ⊎ (can_transition from to ≡ true)

-- What one request makes of a payment.
abbrev pub Advances : Payment → Payment → Type 0
Advances p p' = Keeps p p' × Moves p.status p'.status

Keeps-refl : (p : Payment) → Keeps p p
Keeps-refl p = record {
  same_id = refl;
  same_order = refl;
  same_provider = refl;
  same_amount = refl;
  same_currency = refl;
}

-- How the payments of one state become those of another: they stay, one takes a step, or one is
-- opened under a new id.
pub record Change (db db' : Db) : Type 0 where
  pub rows : TableChange Advances db.payments db'.payments

pub same : {db db' : Db} → db'.payments ≡ db.payments → Change db db'
same h = record { rows = rows_same h }

pub opened :
    {db db' : Db} (p : Payment)
    → find_payment p.id db ≡ none
    → db'.payments ≡ p ∷ db.payments
    → Change db db'
unfolding find_payment
opened p new wrote = record { rows = rows_opened p new wrote }

-- An update of the row of one payment that takes an allowed step there.
took :
    (db db' : Db) (i : ℕ) (p : Payment) (f : Payment → Payment)
    → find_payment i db ≡ some p
    → ((q : Payment) → Keeps q (f q))
    → Moves p.status (f p).status
    → db'.payments ≡ update (by_id i) f db.payments
    → Change db db'
unfolding find_payment
took db db' i p f found keep moves wrote = record {
  rows = moved i p f found (λ q. (keep q).same_id) (keep p, moves) wrote;
}

pub Change-found :
    (db db' : Db)
    → Change db db'
    → (k : ℕ) (p : Payment) → find_payment k db ≡ some p
    → (p' : Payment) × (find_payment k db' ≡ some p') × Advances p p'
unfolding find_payment
Change-found db db' c =
    TableChange-found Advances (λ p. (Keeps-refl p, inl refl)) db.payments db'.payments c.rows

-- What a write of the service leaves of the payments: they are as they were, or one is updated.
pub update_payment-stored :
    (i : ℕ) (p : Payment) (f : Payment → Payment) (db : Db)
    → find_payment i db ≡ some p
    → ((q : Payment) → Keeps q (f q))
    → update_payment i f db ≡ (ok (f p), record db { payments = update (by_id i) f db.payments })
unfolding update_payment find_payment
update_payment-stored i p f db h keep =
    ground (arith, h, find-update_self i f (λ r. (keep r).same_id) db.payments)

pub update_order-payments :
    (i : ℕ) (f : Order → Order) (db : Db) → (update_order i f db).1.payments ≡ db.payments
unfolding update_order
update_order-payments i f db = ground arith

module _ (env : Env) (p : Payment) (db : Db) (found : find_payment p.id db ≡ some p) where
  pub mark_succeeded-Change :
      (ref : Option String)
      → can_transition p.status PaymentStatus.succeeded ≡ true
      → Change db (mark_succeeded env p.id ref db).1
  unfolding mark_succeeded
  mark_succeeded-Change ref can =
      let row = succeeded_row env ref in
      let keep : (q : Payment) → Keeps q (row q) = λ q. record {
        same_id = refl;
        same_order = refl;
        same_provider = refl;
        same_amount = refl;
        same_currency = refl;
      } in
      let wrote = update_payment-stored p.id p row db found keep in
      took db _ p.id p row found keep (inr can) (
        ground (
          arith,
          wrote,
          update_order-payments p.order_id (link_payment env p.id)
              (record db { payments = update (by_id p.id) row db.payments }),
        ))

  pub mark_failed-Change :
      (reason : String)
      → can_transition p.status PaymentStatus.failed ≡ true
      → Change db (mark_failed env p.id reason db).1
  unfolding mark_failed
  mark_failed-Change reason can =
      let row = failed_row reason in
      let keep : (q : Payment) → Keeps q (row q) = λ q. record {
        same_id = refl;
        same_order = refl;
        same_provider = refl;
        same_amount = refl;
        same_currency = refl;
      } in
      took db _ p.id p row found keep (inr can)
        (ground (arith, update_payment-stored p.id p row db found keep))

  pub mark_cancelled-Change :
      can_transition p.status PaymentStatus.cancelled ≡ true
      → Change db (mark_cancelled env p.id db).1
  unfolding mark_cancelled
  mark_cancelled-Change can =
      let row = cancelled_row in
      let keep : (q : Payment) → Keeps q (row q) = λ q. record {
        same_id = refl;
        same_order = refl;
        same_provider = refl;
        same_amount = refl;
        same_currency = refl;
      } in
      took db _ p.id p row found keep (inr can)
        (ground (arith, update_payment-stored p.id p row db found keep))

  pub mark_refunded-Change :
      can_transition p.status PaymentStatus.refunded ≡ true
      → Change db (mark_refunded env p.id db).1
  unfolding mark_refunded
  mark_refunded-Change can =
      let row = refunded_row in
      let keep : (q : Payment) → Keeps q (row q) = λ q. record {
        same_id = refl;
        same_order = refl;
        same_provider = refl;
        same_amount = refl;
        same_currency = refl;
      } in
      took db _ p.id p row found keep (inr can)
        (ground (arith, update_payment-stored p.id p row db found keep))
