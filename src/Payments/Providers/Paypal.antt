-- ===== src/Payments/Providers/Paypal.antt =====
-- src/modules/payments/providers/paypal.provider.ts. A call takes the token that the provider has
-- cached and leaves another beside its result; what PayPal answers is a parameter.
use text.Mathlib.Text.{◌==◌ as str_eq}
use bomboli_server.Prelude.{
  ⊤, ℕ, ◌+◌, ◌*◌, ltb, Bool, String, Option, none, some, List, [], ◌∷◌, if◌then◌else◌,
}
use bomboli_server.Db.{Currency, Error, Result, ok, err}
use bomboli_server.Payments.Gateway.{IntentArgs, IntentResult}
use bomboli_server.Payments.Webhook.{WebhookEvent}
use bomboli_server.Payments.Providers.{
  Fetched, body, refused, broken, Headers, not_configured, bad_gateway, signature_missing,
  signature_invalid, invalid_request, filled, pick_header,
}
use bomboli_server.Payments.Providers.Amounts.{format_major}
use bomboli_server.Payments.Providers.Events.{PaypalEvent, translate_paypal}

-- `cfg.paypal`
pub record Config : Type 0 where
  pub enabled : Bool
  pub webhook_id : Option String

pub record Token : Type 0 where
  pub value : String
  pub expires_at : ℕ

-- The answer of the token endpoint; the lifetime is in seconds.
pub record TokenBody : Type 0 where
  pub access_token : String
  pub expires_in : ℕ

-- The request of `createIntent`: the header and the fields of the JSON body that depend on the
-- arguments.
pub record OrderRequest : Type 0 where
  pub token : String
  pub request_id : Option String
  pub reference_id : ℕ
  pub currency_code : Currency
  pub value : List ℕ
  pub return_url : String
  pub cancel_url : String

pub record Link : Type 0 where
  pub rel : String
  pub href : String

-- `PayPalOrderResponse`
pub record OrderResponse : Type 0 where
  pub id : String
  pub status : String
  pub links : List Link

pub record VerifyRequest : Type 0 where
  pub token : String
  pub auth_algo : String
  pub cert_url : String
  pub transmission_id : String
  pub transmission_sig : String
  pub transmission_time : String
  pub webhook_id : String
  pub webhook_event : PaypalEvent

-- PayPal's side. Of the answer to a signature check the status is not looked at: `verify` is the
-- field `verification_status` of its body, if that is there, or none if no JSON came back.
pub record Network : Type 0 where
  pub fetch_token : Fetched TokenBody
  pub create_order : OrderRequest → Fetched OrderResponse
  pub capture : String → String → Fetched String
  pub verify : VerifyRequest → Option (Option String)
  pub refund : String → String → Fetched ⊤
  pub parse_event : String → Option PaypalEvent

-- A call on the provider: its result, and the cached token.
abbrev pub Call : Type 0 → Type 0
Call A = Option Token → Result A × Option Token

abbrev fail_with : {A : Type 0} → Error → Call A
fail_with e cache = (err e, cache)

infixl 5 ◌then_call◌
abbrev pub ◌then_call◌ : {A B : Type 0} → Call A → (A → Call B) → Call B
◌then_call◌ m f cache =
    let (r, cache') = m cache in elim r [ ok a ↦ f a cache' | err e ↦ (err e, cache') ]

abbrev pub got : {A : Type 0} → Error → Fetched A → Call A
got e (body a) cache = (ok a, cache)
got e (refused status) cache = (err e, cache)
got e broken cache = (err Error.upstream, cache)

-- `cachedToken && cachedToken.expiresAt > Date.now() + 60_000`
unfoldable pub usable : ℕ → Option Token → Option Token
usable now none = none
usable now (some t) = if ltb (now + 60000) t.expires_at then some t else none

unfoldable pub keep_token : ℕ → Fetched TokenBody → Call String
keep_token now (refused status) cache = (err bad_gateway, cache)
keep_token now broken cache = (err Error.upstream, cache)
keep_token now (body b) cache =
    let t : Token = record { value = b.access_token; expires_at = now + b.expires_in * 1000 } in
    (ok b.access_token, some t)

unfoldable pub token_or_fetch : Network → ℕ → Option Token → Call String
unfolding keep_token
token_or_fetch net now (some t) cache = (ok t.value, cache)
token_or_fetch net now none cache = keep_token now net.fetch_token cache

unfoldable pub get_access_token : Config → Network → ℕ → Call String
unfolding usable token_or_fetch
get_access_token cfg net now cache =
    if cfg.enabled
    then token_or_fetch net now (usable now cache) cache
    else (err not_configured, cache)

-- `links?.find((l) => l.rel === 'approve')?.href`
unfoldable approve_link : List Link → Option String
approve_link [] = none
approve_link (l ∷ links) = if str_eq l.rel "approve" then some l.href else approve_link links

unfoldable order_request : IntentArgs → String → String → String → OrderRequest
unfolding filled
order_request args return_url cancel_url token = record {
  token = token;
  request_id = filled args.idempotency_key;
  reference_id = args.payment_id;
  currency_code = args.currency;
  value = format_major args.amount_cents args.currency;
  return_url = return_url;
  cancel_url = cancel_url;
}

unfoldable order_created : (String → String) → OrderResponse → Call IntentResult
unfolding approve_link filled
order_created payload_of r cache = elim (filled (approve_link r.links)) [
  | none ↦ (err bad_gateway, cache)
  | some link ↦ (ok (record { provider_ref = r.id; client_payload = payload_of link }), cache)
]

-- `payload_of` writes the JSON of the client's payload around the approval link.
unfoldable pub create_intent :
    Config → Network → ℕ → (String → String) → IntentArgs → Call IntentResult
unfolding filled get_access_token order_request order_created
create_intent cfg net now payload_of args cache = elim (filled args.return_url) [
  | none ↦ (err invalid_request, cache)
  | some return_url ↦ elim (filled args.cancel_url) [
    | none ↦ (err invalid_request, cache)
    | some cancel_url ↦
        (get_access_token cfg net now
            then_call (λ token.
                got bad_gateway (net.create_order (order_request args return_url cancel_url token)))
            then_call order_created payload_of)
          cache
  ]
]

unfoldable pub capture_order : Config → Network → ℕ → String → Call String
unfolding get_access_token
capture_order cfg net now ref =
    get_access_token cfg net now then_call (λ token. got bad_gateway (net.capture token ref))

pub record Transmission : Type 0 where
  pub id : String
  pub time : String
  pub cert_url : String
  pub auth_algo : String
  pub sig : String

abbrev with_some : {A B : Type 0} → Option A → (A → Option B) → Option B
with_some none f = none
with_some (some a) f = f a

unfoldable pub transmission : Headers → Option Transmission
unfolding pick_header filled
transmission headers =
    let header = λ (name : String). filled (pick_header headers name) in
    with_some (header "paypal-transmission-id") λ id.
      with_some (header "paypal-transmission-time") λ time.
        with_some (header "paypal-cert-url") λ cert_url.
          with_some (header "paypal-auth-algo") λ auth_algo.
            with_some (header "paypal-transmission-sig") λ sig. some (record {
              id = id;
              time = time;
              cert_url = cert_url;
              auth_algo = auth_algo;
              sig = sig;
            })

unfoldable pub verify_request : String → Transmission → PaypalEvent → String → VerifyRequest
verify_request webhook_id t event token = record {
  token = token;
  auth_algo = t.auth_algo;
  cert_url = t.cert_url;
  transmission_id = t.id;
  transmission_sig = t.sig;
  transmission_time = t.time;
  webhook_id = webhook_id;
  webhook_event = event;
}

-- What follows the signature check.
unfoldable pub verified : Option (Option String) → PaypalEvent → Call WebhookEvent
verified none event cache = (err Error.upstream, cache)
verified (some none) event cache = (err signature_invalid, cache)
verified (some (some status)) event cache =
    (if str_eq status "SUCCESS" then ok (translate_paypal event) else err signature_invalid, cache)

unfoldable pub check_signature :
    Config → Network → ℕ → String → Transmission → String → Call WebhookEvent
unfolding get_access_token verify_request verified
check_signature cfg net now webhook_id t raw_body =
    get_access_token cfg net now then_call λ token cache. elim (net.parse_event raw_body) [
      | none ↦ (err Error.upstream, cache)
      | some event ↦ verified (net.verify (verify_request webhook_id t event token)) event cache
    ]

unfoldable pub verify_and_parse_webhook :
    Config → Network → ℕ → String → Headers → Call WebhookEvent
unfolding filled transmission check_signature
verify_and_parse_webhook cfg net now raw_body headers cache = elim (filled cfg.webhook_id) [
  | none ↦ (err not_configured, cache)
  | some webhook_id ↦ elim (transmission headers) [
    | none ↦ (err signature_missing, cache)
    | some t ↦ check_signature cfg net now webhook_id t raw_body cache
  ]
]

-- Only a refund of the whole capture is sent.
unfoldable pub send_refund : Network → String → Option ℕ → String → Call ⊤
send_refund net ref (some _) token = fail_with invalid_request
send_refund net ref none token = got bad_gateway (net.refund token ref)

unfoldable pub refund_capture : Config → Network → ℕ → String → Option ℕ → Call ⊤
unfolding send_refund
refund_capture cfg net now ref amount_cents =
    get_access_token cfg net now then_call send_refund net ref amount_cents
