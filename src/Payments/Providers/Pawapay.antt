-- ===== src/Payments/Providers/Pawapay.antt =====
-- src/modules/payments/providers/pawapay.provider.ts. What Pawapay answers, the hash function, the
-- JSON parser and the generated id are parameters.

use Prim.Native.String.{String as Text, count, len}
use Prim.Native.Char.{code}
use text.Mathlib.Text.{◌==◌ as str_eq}
use bomboli_server.Prelude.{
  ⊤, ℕ, ◌==◌, Bool, false, not, ◌||◌, String, Option, none, some, List, if◌then◌else◌,
}
use bomboli_server.Db.{Currency, Error, Result, ok, err}
use bomboli_server.Payments.Gateway.{IntentArgs, IntentResult}
use bomboli_server.Payments.Webhook.{WebhookEvent}
use bomboli_server.Payments.Providers.{
  Fetched, body, refused, broken, Headers, not_configured, bad_gateway, signature_missing,
  signature_invalid, invalid_request, filled, pick_header,
}
use bomboli_server.Payments.Providers.Amounts.{format_major}
use bomboli_server.Payments.Providers.Events.{PawapayEvent, translate_pawapay}

-- `cfg.pawapay`
pub record Config : Type 0 where
  pub enabled : Bool
  pub webhook_secret : Option String

-- The fields of the deposit that depend on the arguments.
pub record DepositRequest : Type 0 where
  pub deposit_id : String
  pub request_key : Option String
  pub amount : List ℕ
  pub currency : Currency
  pub correspondent : String
  pub payer : String
  pub order_id : ℕ

pub record DepositBody : Type 0 where
  pub deposit_id : String
  pub status : String

pub record Network : Type 0 where
  pub deposit : DepositRequest → Fetched DepositBody
  pub refund : String → String → Fetched ⊤
  pub hmac_sha256_hex : String → String → String
  pub parse_event : String → Option PawapayEvent

abbrev pub got : {A : Type 0} → Fetched A → Result A
got (body a) = ok a
got (refused status) = err bad_gateway
got broken = err Error.upstream

-- `VALID_OPERATORS`
unfoldable is_valid_operator : String → Bool
is_valid_operator o =
    str_eq o "VODACOM_MPESA_COD" || str_eq o "ORANGE_COD" || str_eq o "AIRTEL_OAPI_COD"

-- `replace(/^\+/, '')`
unfoldable strip_plus : String → String
strip_plus Text.[] = Text.[]
strip_plus (Text.◌∷◌ c s) = if code c == b'+' then s else Text.◌∷◌ c s

unfoldable deposit_request : String → IntentArgs → String → String → DepositRequest
unfolding filled strip_plus
deposit_request id args phone operator = record {
  deposit_id = id;
  request_key = filled args.idempotency_key;
  amount = format_major args.amount_cents args.currency;
  currency = args.currency;
  correspondent = operator;
  payer = strip_plus phone;
  order_id = args.order_id;
}

unfoldable deposited : (DepositBody → String) → Fetched DepositBody → Result IntentResult
deposited payload_of (body b) =
    ok (record { provider_ref = b.deposit_id; client_payload = payload_of b })
deposited payload_of (refused status) = err bad_gateway
deposited payload_of broken = err Error.upstream

-- The checks on the arguments of `createIntent`.
unfoldable payer_of : IntentArgs → Result (String × String)
unfolding filled is_valid_operator
payer_of args = elim (filled args.phone) [
  | none ↦ err invalid_request
  | some phone ↦ elim (filled args.operator) [
    | none ↦ err invalid_request
    | some operator ↦
        if is_valid_operator operator then ok (phone, operator) else err invalid_request
  ]
]

unfoldable pub create_intent :
    Config → Network → String → (DepositBody → String) → IntentArgs → Result IntentResult
unfolding payer_of deposit_request deposited
create_intent cfg net id payload_of args =
    if cfg.enabled
    then (elim (payer_of args) [
      | err e ↦ err e
      | ok (phone, operator) ↦
          deposited payload_of (net.deposit (deposit_request id args phone operator))
    ])
    else err not_configured

-- `provided.length === computed.length && timingSafeEqual(…)`; the comparison throws a RangeError if
-- the two differ in bytes.
unfoldable pub same_signature : String → String → Result Bool
same_signature provided computed =
    if not (count provided == count computed)
    then ok false
    else if not (len provided == len computed)
    then err Error.upstream
    else ok (str_eq provided computed)

unfoldable pub parsed : Option PawapayEvent → Result WebhookEvent
parsed none = err Error.upstream
parsed (some event) = ok (translate_pawapay event)

unfoldable pub check_signature : Network → String → String → String → Result WebhookEvent
unfolding same_signature parsed
check_signature net secret raw_body provided =
    elim (same_signature provided (net.hmac_sha256_hex secret raw_body)) [
      | err e ↦ err e
      | ok same ↦ if same then parsed (net.parse_event raw_body) else err signature_invalid
    ]

unfoldable pub verify_and_parse_webhook : Config → Network → String → Headers → Result WebhookEvent
unfolding filled pick_header check_signature
verify_and_parse_webhook cfg net raw_body headers = elim (filled cfg.webhook_secret) [
  | none ↦ err not_configured
  | some secret ↦ elim (filled (pick_header headers "x-pawapay-signature")) [
    | none ↦ err signature_missing
    | some provided ↦ check_signature net secret raw_body provided
  ]
]

-- `refund(providerRef)`, which takes no amount.
unfoldable pub refund_deposit : Config → Network → String → String → Result ⊤
refund_deposit cfg net refund_id ref =
    if cfg.enabled then got (net.refund refund_id ref) else err not_configured
