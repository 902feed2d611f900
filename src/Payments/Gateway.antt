-- ===== src/Payments/Gateway.antt =====
-- The payment providers as the service sees them: `PaymentProviderHandler` of
-- src/modules/payments/providers/payment-provider.interface.ts behind the registry of
-- payment-provider.registry.ts. The providers call other services over the network, so they are a
-- parameter: what each call answers. Also `PaymentResponseDto` and `compose`.
use bomboli_server.Prelude.{⊤, ℕ, ◌≡◌, ◌⊎◌, inl, inr, refl, Bool, not, String, Option, or_else}
use bomboli_server.Db.{ProviderKind, Currency, Error, ErrorCode, Action, throw_if, Payment}

-- The answer of a provider, or its exception and the message of that.
pub data Reply (A : Type 0) : Type 0 where
  replied : A → Reply A
  threw : Error → String → Reply A

pub Reply-cases :
    {A : Type 0} (r : Reply A)
    → ((a : A) × (r ≡ replied a)) ⊎ ((e : Error) × (message : String) × (r ≡ threw e message))
Reply-cases (replied a) = inl (a, refl)
Reply-cases (threw e message) = inr (e, message, refl)

-- `CreateIntentArgs`
pub record IntentArgs : Type 0 where
  pub payment_id : ℕ
  pub order_id : ℕ
  pub amount_cents : ℕ
  pub currency : Currency
  pub buyer_email : String
  pub buyer_phone : Option String
  pub idempotency_key : Option String
  pub return_url : Option String
  pub cancel_url : Option String
  pub phone : Option String
  pub operator : Option String

-- `CreateIntentResult`
pub record IntentResult : Type 0 where
  pub provider_ref : String
  pub client_payload : String

-- `payment.providerRef ?? payment.id`
pub data RefundTarget : Type 0 where
  by_ref : String → RefundTarget
  by_payment : ℕ → RefundTarget

-- `capture_order` says whether the status that came back is `COMPLETED`.
pub record Gateway : Type 0 where
  pub is_configured : ProviderKind → Bool
  pub create_intent : ProviderKind → IntentArgs → Reply IntentResult
  pub capture_order : String → Reply Bool
  pub refund : ProviderKind → RefundTarget → Option ℕ → Reply ⊤

-- `PaymentProviderRegistry.for`
unfoldable pub provider_for : Gateway → ProviderKind → Action ⊤
provider_for g kind =
    throw_if (not (g.is_configured kind)) (Error.domain ErrorCode.auth_provider_error 503)

-- `PaymentResponseDto`: the columns of the payment, and the payload for the client.
pub record PaymentResponse : Type 0 where
  pub payment : Payment
  pub client_payload : Option String

unfoldable pub compose : Payment → Option String → PaymentResponse
compose payment client_payload = record {
  payment = payment;
  client_payload = or_else client_payload payment.metadata;
}
