-- ===== src/Payments/Providers/Registry.antt =====
-- The four providers behind the registry (src/modules/payments/providers/
-- payment-provider.registry.ts): the gateway that the payment service calls, at the state in which
-- one request finds the providers.
use text.Mathlib.Text.{◌==◌ as str_eq}
use bomboli_server.Prelude.{
  ⊤, ℕ, ◌≡◌, refl, inl, inr, Bool-cases, Bool, true, String, Option, some, arith,
}
use bomboli_server.Db.{
  Db, Env, Payment, ProviderKind, stripe, paypal, pawapay, manual, Error, ErrorCode, PaymentStatus,
  Result, ok, err,
}
use bomboli_server.Payments.Gateway.{
  Gateway, Reply, replied, threw, RefundTarget, by_ref, by_payment, IntentArgs, IntentResult,
  provider_for,
}
use bomboli_server.Payments.Confirm.{refund_payment, refund_target, answer}
use bomboli_server.Payments.Marks.{find_payment}
use bomboli_server.Payments.Status.{can_transition}
use bomboli_server.Payments.Providers.{not_configured, invalid_request}
use bomboli_server.Payments.Providers.Verified.{call_cases}
use bomboli_server.Payments.Providers.Paypal
use bomboli_server.Payments.Providers.Paypal.{◌then_call◌}
use bomboli_server.Payments.Providers.Pawapay
use bomboli_server.Payments.Providers.Stripe

-- Where the rest of a call fails with any token, the call fails.
then_call-fails :
    (m : Paypal.Call String) (k : String → Paypal.Call ⊤) (cache : Option Paypal.Token)
    → ((token : String) (c : Option Paypal.Token) → (e : Error) × ((k token c).0 ≡ err e))
    → (e : Error) × (((m then_call k) cache).0 ≡ err e)
then_call-fails m k cache fails = elim (call_cases (m cache)) [
  | inl (token, c, e) ↦ let (x, f) = fails token c in (x, ground (arith, f))
  | inr (x, c, e) ↦ (x, ground arith)
]

-- The configuration, the other sides of the network, the clock, the cached PayPal token and the
-- generated ids; `text_of` writes an id, `message_of` the message of an exception, and
-- `client_payload` the JSON of a payload.
pub record Providers : Type 0 where
  pub stripe_config : Stripe.Config
  pub stripe_client : Stripe.Client
  pub paypal_config : Paypal.Config
  pub paypal_network : Paypal.Network
  pub paypal_token : Option Paypal.Token
  pub pawapay_config : Pawapay.Config
  pub pawapay_network : Pawapay.Network
  pub now : ℕ
  pub fresh : String
  pub text_of : ℕ → String
  pub message_of : Error → String
  pub stripe_payload : String → String
  pub paypal_payload : String → String
  pub pawapay_payload : Pawapay.DepositBody → String
  pub manual_payload : String

module _ (ps : Providers) where
  reply : {A : Type 0} → Result A → Reply A
  reply (ok a) = replied a
  reply (err e) = threw e (ps.message_of e)

  unfoldable pub is_configured : ProviderKind → Bool
  is_configured manual = true
  is_configured stripe = ps.stripe_config.enabled
  is_configured paypal = ps.paypal_config.enabled
  is_configured pawapay = ps.pawapay_config.enabled

  unfoldable pub create_intent : ProviderKind → IntentArgs → Result IntentResult
  create_intent manual args = ok (Stripe.manual_intent ps.text_of ps.manual_payload args)
  create_intent stripe args =
      Stripe.create_intent ps.stripe_config ps.stripe_client ps.stripe_payload args
  create_intent paypal args =
      (Paypal.create_intent ps.paypal_config ps.paypal_network ps.now ps.paypal_payload args
        ps.paypal_token).0
  create_intent pawapay args =
      Pawapay.create_intent ps.pawapay_config ps.pawapay_network ps.fresh ps.pawapay_payload args

  is_completed : Result String → Reply Bool
  is_completed (ok status) = replied (str_eq status "COMPLETED")
  is_completed (err e) = threw e (ps.message_of e)

  target_text : RefundTarget → String
  target_text (by_ref ref) = ref
  target_text (by_payment i) = ps.text_of i

  unfoldable pub refund : ProviderKind → String → Option ℕ → Result ⊤
  refund manual ref amount_cents = Stripe.manual_refund
  refund stripe ref amount_cents =
      Stripe.refund_intent ps.stripe_config ps.stripe_client ref amount_cents
  refund paypal ref amount_cents =
      (Paypal.refund_capture ps.paypal_config ps.paypal_network ps.now ref amount_cents
        ps.paypal_token).0
  refund pawapay ref amount_cents =
      Pawapay.refund_deposit ps.pawapay_config ps.pawapay_network ps.fresh ref

  unfoldable pub gateway : Gateway
  unfolding reply is_completed target_text is_configured create_intent refund
  gateway = record {
    is_configured = is_configured;
    create_intent = λ kind args. reply (create_intent kind args);
    capture_order = λ ref.
        is_completed
          (Paypal.capture_order ps.paypal_config ps.paypal_network ps.now ref ps.paypal_token).0;
    refund = λ kind target amount_cents. reply (refund kind (target_text target) amount_cents);
  }

  refund_capture-part :
      (ref : String) (amount : ℕ)
      → (e : Error) × ((Paypal.refund_capture ps.paypal_config ps.paypal_network ps.now ref
            (some amount)
            ps.paypal_token).0
          ≡ err e)
  unfolding Paypal.refund_capture
  refund_capture-part ref amount =
      then_call-fails (Paypal.get_access_token ps.paypal_config ps.paypal_network ps.now)
        (Paypal.send_refund ps.paypal_network ref (some amount)) ps.paypal_token
        (λ token cache. (invalid_request, refl))

  refund-paypal_part :
      (kind : ProviderKind) (target : RefundTarget) (amount : ℕ)
      → kind ≡ paypal
      → (e : Error) × (gateway.refund kind target (some amount) ≡ threw e (ps.message_of e))
  unfolding gateway
  refund-paypal_part paypal target amount h =
      let (e, fails) = refund_capture-part (target_text target) amount in (e, rw fails refl)
  refund-paypal_part manual target amount h = absurd (cc)
  refund-paypal_part stripe target amount h = absurd (cc)
  refund-paypal_part pawapay target amount h = absurd (cc)

  module _ (env : Env) (i amount : ℕ) (p : Payment) (db : Db)
      (found : find_payment i db ≡ some p) where
    -- A refund of a part of a PayPal payment is refused, and changes nothing.
    pub refund_payment-paypal_part :
        p.provider ≡ paypal
        → (e : Error) × (refund_payment gateway env i (some amount) db ≡ (err e, db))
    unfolding refund_payment provider_for answer
    refund_payment-paypal_part kind =
        let (e, fails) =
          refund-paypal_part p.provider (refund_target p p.provider_ref) amount kind in
        elim (Bool-cases (can_transition p.status PaymentStatus.refunded)) [
          | inr no_move ↦ (Error.domain ErrorCode.conflict 409, ground arith)
          | inl moves ↦ elim (Bool-cases (gateway.is_configured p.provider)) [
            | inr off ↦ (not_configured, ground arith)
            | inl on ↦ (e, ground arith)
          ]
        ]
