-- ===== src/Payments/Providers/Verified.antt =====
-- Which webhooks are believed: the signature checks of src/modules/payments/providers in front of
-- `dispatch` of src/modules/payments/webhooks/payment-webhooks.controller.ts.
use text.Mathlib.Text.{◌==◌ as str_eq}
use text.Mathlib.TextEquality.{eq_iff}
use text.Mathlib.TextPositions.{eq_refl}
use Prim.Native.String.{count, len}
use bomboli_server.Prelude.{
  ℕ, ◌≡◌, ◌⊎◌, inl, inr, refl, ap, ◌∙◌, Bool, true, false, String, Option, none, some, arith,
  Option-cases, Bool-cases, ◌↔◌, ==-refl,
}
use bomboli_server.Db.{Db, Env, pawapay, Error, Result, ok, err}
use bomboli_server.Payments.Gateway.{Reply, replied, threw}
use bomboli_server.Payments.Webhook.{WebhookEvent, dispatch}
use bomboli_server.Payments.Providers.{Headers, filled, pick_header}
use bomboli_server.Payments.Providers.Events.{
  PaypalEvent, PawapayEvent, translate_paypal, translate_pawapay,
}
use bomboli_server.Payments.Providers.Paypal
use bomboli_server.Payments.Providers.Pawapay

-- An exception's message is not looked at by `dispatch`.
unfoldable pub reply_of : Result WebhookEvent → Reply WebhookEvent
reply_of (ok event) = replied event
reply_of (err e) = threw e ""

-- The header is the keyed hash of the very bytes that are parsed.
pub record PawapaySigned (cfg : Pawapay.Config) (net : Pawapay.Network) (raw_body : String)
    (headers : Headers) (event : WebhookEvent) : Type 0 where
  pub secret : String
  pub payload : PawapayEvent
  pub has_secret : filled cfg.webhook_secret ≡ some secret
  pub signed :
      filled (pick_header headers "x-pawapay-signature")
      ≡ some (net.hmac_sha256_hex secret raw_body)
  pub parses : net.parse_event raw_body ≡ some payload
  pub is_event : event ≡ translate_pawapay payload

pub record PaypalSigned (cfg : Paypal.Config) (net : Paypal.Network) (raw_body : String)
    (headers : Headers) (event : WebhookEvent) : Type 0 where
  pub webhook_id : String
  pub transmission : Paypal.Transmission
  pub token : String
  pub payload : PaypalEvent
  pub has_id : filled cfg.webhook_id ≡ some webhook_id
  pub has_headers : Paypal.transmission headers ≡ some transmission
  pub parses : net.parse_event raw_body ≡ some payload
  pub confirmed :
      net.verify (Paypal.verify_request webhook_id transmission payload token)
      ≡ some (some "SUCCESS")
  pub is_event : event ≡ translate_paypal payload

Result-cases : {A : Type 0} (r : Result A) → ((a : A) × (r ≡ ok a)) ⊎ ((e : Error) × (r ≡ err e))
Result-cases (ok a) = inl (a, refl)
Result-cases (err e) = inr (e, refl)

pub call_cases :
    {A : Type 0} (s : Result A × Option Paypal.Token)
    → ((a : A) × (c : Option Paypal.Token) × (s ≡ (ok a, c)))
      ⊎ ((e : Error) × (c : Option Paypal.Token) × (s ≡ (err e, c)))
call_cases (ok a, c) = inl (a, c, refl)
call_cases (err e, c) = inr (e, c, refl)

verified_success :
    (answer : Option (Option String)) (payload : PaypalEvent) (cache : Option Paypal.Token)
    (event : WebhookEvent)
    → (Paypal.verified answer payload cache).0 ≡ ok event
    → (answer ≡ some (some "SUCCESS")) × (event ≡ translate_paypal payload)
unfolding Paypal.verified
verified_success none payload cache event h = absurd (cc)
verified_success (some none) payload cache event h = absurd (cc)
verified_success (some (some status)) payload cache event h =
    elim (Bool-cases (str_eq status "SUCCESS")) [
      | inr no_match ↦ ground arith
      | inl agrees ↦
          (ap (λ (x : String). some (some x)) ((eq_iff status "SUCCESS").0 agrees), ground arith)
    ]

module _ (cfg : Pawapay.Config) (net : Pawapay.Network) (raw_body : String)
    (headers : Headers) where
  same_signature-eq :
      (provided computed : String)
      → Pawapay.same_signature provided computed ≡ ok true
      → provided ≡ computed
  unfolding Pawapay.same_signature
  same_signature-eq provided computed h = (eq_iff provided computed).0 (ground arith)

  check_signature-eq :
      (secret provided : String) (event : WebhookEvent)
      → Pawapay.check_signature net secret raw_body provided ≡ ok event
      → (payload : PawapayEvent) × (provided ≡ net.hmac_sha256_hex secret raw_body)
        × (net.parse_event raw_body ≡ some payload)
        × (event ≡ translate_pawapay payload)
  unfolding Pawapay.check_signature Pawapay.parsed
  check_signature-eq secret provided event h =
      elim (Result-cases (Pawapay.same_signature provided (net.hmac_sha256_hex secret raw_body))) [
        | inr (x, e) ↦ ground arith
        | inl (same, e) ↦ elim (Option-cases (net.parse_event raw_body)) [
          | inl p ↦ ground arith
          | inr (payload, p) ↦
              let agree : same ≡ true = ground arith in
              (payload, same_signature-eq provided _ (e ∙ ap ok agree), p, ground arith)
        ]
      ]

  pawapay_webhook-Signed :
      (event : WebhookEvent)
      → Pawapay.verify_and_parse_webhook cfg net raw_body headers ≡ ok event
      → PawapaySigned cfg net raw_body headers event
  unfolding Pawapay.verify_and_parse_webhook
  pawapay_webhook-Signed event h = elim (Option-cases (filled cfg.webhook_secret)) [
    | inl e ↦ ground arith
    | inr (secret, e) ↦ elim (Option-cases (filled (pick_header headers "x-pawapay-signature"))) [
      | inl p ↦ ground arith
      | inr (provided, p) ↦
          let (payload, signed, parses, is_event) =
            check_signature-eq secret provided event (ground arith) in
          record {
            secret = secret;
            payload = payload;
            has_secret = e;
            signed = ground arith;
            parses = parses;
            is_event = is_event;
          }
    ]
  ]

  pawapay_webhook-accepts :
      (event : WebhookEvent)
      → PawapaySigned cfg net raw_body headers event
      → Pawapay.verify_and_parse_webhook cfg net raw_body headers ≡ ok event
  unfolding Pawapay.verify_and_parse_webhook Pawapay.check_signature Pawapay.same_signature
      Pawapay.parsed
  pawapay_webhook-accepts event h =
      let hash = net.hmac_sha256_hex h.secret raw_body in
      ground (
        arith,
        h.has_secret,
        h.signed,
        h.parses,
        h.is_event,
        eq_refl hash,
        ==-refl (count hash),
        ==-refl (len hash),
      )

  -- A Pawapay webhook is accepted as an event exactly when a secret is configured, the signature
  -- header is the HMAC of the raw body under that secret, and the body parses to what the event is
  -- translated from.
  pub pawapay_webhook-Signed_iff :
      (event : WebhookEvent)
      → (Pawapay.verify_and_parse_webhook cfg net raw_body headers ≡ ok event)
        ↔ PawapaySigned cfg net raw_body headers event
  pawapay_webhook-Signed_iff event = (pawapay_webhook-Signed event, pawapay_webhook-accepts event)

  -- A Pawapay webhook that is not so signed is answered by an error and changes nothing.
  pub dispatch-unsigned :
      (env : Env) (has_body : Bool) (db : Db)
      → ((event : WebhookEvent) → ¬ PawapaySigned cfg net raw_body headers event)
      → let verdict = reply_of (Pawapay.verify_and_parse_webhook cfg net raw_body headers) in
        (e : Error) × (dispatch env pawapay has_body verdict db ≡ (err e, db))
  unfolding dispatch reply_of
  dispatch-unsigned env false db unsigned = (Error.bad_request, refl)
  dispatch-unsigned env true db unsigned =
      elim (Result-cases (Pawapay.verify_and_parse_webhook cfg net raw_body headers)) [
        | inl (event, r) ↦ absurd (unsigned event (pawapay_webhook-Signed event r))
        | inr (e, r) ↦ (e, rw r refl)
      ]

module _ (cfg : Paypal.Config) (net : Paypal.Network) (now : ℕ) (raw_body : String)
    (headers : Headers) (cache : Option Paypal.Token) where
  -- A PayPal webhook that is accepted as an event carries all five transmission headers, and
  -- PayPal's verification endpoint has answered SUCCESS for them, the configured webhook id and the
  -- parsed body, from which the event is translated.
  pub paypal_webhook-Signed :
      (event : WebhookEvent)
      → (Paypal.verify_and_parse_webhook cfg net now raw_body headers cache).0 ≡ ok event
      → PaypalSigned cfg net raw_body headers event
  unfolding Paypal.verify_and_parse_webhook Paypal.check_signature
  paypal_webhook-Signed event h = elim (Option-cases (filled cfg.webhook_id)) [
    | inl e ↦ ground arith
    | inr (webhook_id, e) ↦ elim (Option-cases (Paypal.transmission headers)) [
      | inl p ↦ ground arith
      | inr (t, p) ↦ elim (call_cases (Paypal.get_access_token cfg net now cache)) [
        | inr (x, c, a) ↦ ground arith
        | inl (token, c, a) ↦ elim (Option-cases (net.parse_event raw_body)) [
          | inl q ↦ ground arith
          | inr (payload, q) ↦
              let answer = net.verify (Paypal.verify_request webhook_id t payload token) in
              let (confirmed, is_event) = verified_success answer payload c event (ground arith) in
              record {
                webhook_id = webhook_id;
                transmission = t;
                token = token;
                payload = payload;
                has_id = e;
                has_headers = p;
                parses = q;
                confirmed = confirmed;
                is_event = is_event;
              }
        ]
      ]
    ]
  ]
