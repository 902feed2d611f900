-- ===== src/Payments/Confirm.antt =====
-- `confirm`, `manualConfirm`, `refund` and `getById` of src/modules/payments/payments.service.ts.
use Prim.Native.String.{String as Text}
use bomboli_server.Prelude.{
  ℕ, ◌==◌, ◌&&◌, Bool, true, false, not, String, Option, none, some, or_else, is_some_of,
}
use bomboli_server.Db.{
  Env, Payment, PaymentStatus, paypal, manual, confirm, capture, refund, Error, ErrorCode, Action,
  pure, gets, or_throw, throw, throw_if, ◌>>=◌, ◌>>◌, eq_payment_status, eq_provider,
}
use bomboli_server.Users.{get_by_supabase_id_or_fail, lookup_seller_supabase_id}
use bomboli_server.Orders.Access.{find_order}
use bomboli_server.Payments.Status.{can_transition}
use bomboli_server.Payments.Gateway.{
  Gateway, Reply, replied, threw, RefundTarget, by_ref, by_payment, PaymentResponse, provider_for,
  compose,
}
use bomboli_server.Payments.Marks.{find_payment, log_attempt, mark_succeeded, mark_refunded}

-- An answer of a provider inside a method that catches nothing.
unfoldable pub answer : {A : Type 0} → Reply A → Action A
answer (replied a) = pure a
answer (threw e message) = throw e

-- `include: { order: true }`: the foreign key sees to it that the order is there.
unfoldable pub buyer_and_seller_of : Payment → Action (ℕ × ℕ)
buyer_and_seller_of p = do
  order ← or_throw Error.missing_record (← gets (find_order p.order_id))
  pure (order.buyer_id, order.seller_id)

-- `!providerRef`: null and the empty text are refused.
unfoldable pub given : Option String → Option String
given none = none
given (some Text.[]) = none
given (some (Text.◌∷◌ c s)) = some (Text.◌∷◌ c s)

unfoldable pub capture_status : Bool → PaymentStatus
capture_status true = PaymentStatus.succeeded
capture_status false = PaymentStatus.pending

-- What follows the capture.
unfoldable pub after_capture : Env → Payment → String → Bool → Action PaymentResponse
after_capture env p ref true = do
  updated ← mark_succeeded env p.id (or_else p.provider_ref (some ref))
  pure (compose updated none)
after_capture env p ref false = pure (compose p none)

-- The checks of `confirm`, and the reference that is captured.
unfoldable pub check_confirm : Gateway → ℕ → Payment → Option String → Action String
unfolding given buyer_and_seller_of
check_confirm g actor p override = do
  parties ← buyer_and_seller_of p
  buyer ← get_by_supabase_id_or_fail actor
  throw_if (not (parties.0 == buyer.id)) Error.forbidden
  throw_if (not (eq_payment_status p.status PaymentStatus.pending))
      (Error.domain ErrorCode.conflict 409)
  ref ←
      or_throw (Error.domain ErrorCode.validation_failed 400)
        (given (or_else override p.provider_ref))
  throw_if (not (eq_provider p.provider paypal)) (Error.domain ErrorCode.conflict 409)
  provider_for g paypal
  pure ref

unfoldable pub confirm_payment : Gateway → Env → ℕ → ℕ → Option String → Action PaymentResponse
unfolding answer capture_status after_capture
confirm_payment g env actor i override = do
  p ← or_throw Error.not_found (← gets (find_payment i))
  ref ← check_confirm g actor p override
  completed ← answer (g.capture_order ref)
  log_attempt p.id capture paypal none none (capture_status completed)
  after_capture env p ref completed

unfoldable pub manual_confirm : Env → ℕ → Option String → Action PaymentResponse
manual_confirm env i external_ref = do
  p ← or_throw Error.not_found (← gets (find_payment i))
  throw_if (not (eq_provider p.provider manual)) (Error.domain ErrorCode.conflict 409)
  throw_if (not (can_transition p.status PaymentStatus.succeeded))
      (Error.domain ErrorCode.conflict 409)
  log_attempt p.id confirm manual none none PaymentStatus.succeeded
  updated ← mark_succeeded env p.id (or_else external_ref p.provider_ref)
  pure (compose updated none)

unfoldable pub refund_target : Payment → Option String → RefundTarget
refund_target p none = by_payment p.id
refund_target p (some ref) = by_ref ref

unfoldable pub refund_payment : Gateway → Env → ℕ → Option ℕ → Action PaymentResponse
unfolding answer refund_target
refund_payment g env i amount_cents = do
  p ← or_throw Error.not_found (← gets (find_payment i))
  throw_if (not (can_transition p.status PaymentStatus.refunded))
      (Error.domain ErrorCode.conflict 409)
  provider_for g p.provider
  answer (g.refund p.provider (refund_target p p.provider_ref) amount_cents)
  log_attempt p.id refund p.provider none amount_cents PaymentStatus.refunded
  updated ← mark_refunded env p.id
  pure (compose updated none)

unfoldable get_payment : ℕ → ℕ → Action PaymentResponse
unfolding buyer_and_seller_of
get_payment actor i = do
  p ← or_throw Error.not_found (← gets (find_payment i))
  parties ← buyer_and_seller_of p
  buyer ← get_by_supabase_id_or_fail actor
  seller_sub ← gets (lookup_seller_supabase_id parties.1)
  throw_if (not (parties.0 == buyer.id) && not (is_some_of actor seller_sub)) Error.forbidden
  pure (compose p none)
