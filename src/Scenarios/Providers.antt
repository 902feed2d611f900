-- ===== src/Scenarios/Providers.antt =====
-- Providers whose other side is a table of fixed answers, and the webhooks that they send.
use bomboli_server.Prelude.{
  ◌≡◌, ◌↔◌, refl, ap, Bool, true, false, String, Option, none, some, [], ◌∷◌, if◌then◌else◌,
}
use text.Mathlib.Text.{◌==◌ as str_eq}
use bomboli_server.Db.{Db, Payment, Result, PaymentStatus, pawapay, usd, Error, ok, err}
use bomboli_server.Scenarios.Data.{db, later, pending_payment}
use bomboli_server.Payments.Webhook.{WebhookEvent, dispatch}
use bomboli_server.Payments.Providers.{body, broken, filled, pick_header, Headers, one}
use bomboli_server.Payments.Providers.Amounts.{format_major, amount_of, amount_of-format_major}
use bomboli_server.Payments.Providers.Events.{
  PaypalEvent, PawapayEvent, translate_paypal, translate_pawapay,
}
use bomboli_server.Payments.Providers.Paypal
use bomboli_server.Payments.Providers.Pawapay
use bomboli_server.Payments.Providers.Verified.{
  reply_of, PawapaySigned, PaypalSigned, pawapay_webhook-Signed_iff, dispatch-unsigned,
  paypal_webhook-Signed,
}
use bomboli_server.Payments.Providers.Registry.{Providers}

amount_of-format_major_example : amount_of usd (format_major 1205 usd) ≡ some 1205
amount_of-format_major_example = amount_of-format_major 1205 usd

twelve_dollars : format_major 1205 usd ≡ b'1' ∷ b'2' ∷ b'.' ∷ b'0' ∷ b'5' ∷ []
unfolding format_major
twelve_dollars = refl

abbrev deposit_done : PawapayEvent
deposit_done = record {
  deposit_id = some "D1";
  refund_id = none;
  kind = none;
  status = "COMPLETED";
  failure_code = none;
  failure_message = none;
}

abbrev pawapay_config : Pawapay.Config
pawapay_config = record { enabled = true; webhook_secret = some "secret" }

abbrev pawapay_network : Pawapay.Network
pawapay_network = record {
  deposit = λ r. body (record { deposit_id = r.deposit_id; status = "ACCEPTED" });
  refund = λ id ref. body tt;
  hmac_sha256_hex = λ secret text. "abc";
  parse_event = λ text. some deposit_done;
}

abbrev signed : Headers
signed = ("x-pawapay-signature", one "abc") ∷ []

abbrev forged : Headers
forged = ("x-pawapay-signature", one "abd") ∷ []

abbrev is_done : WebhookEvent
is_done = translate_pawapay deposit_done

pawapay_webhook-Signed_iff_example :
    (Pawapay.verify_and_parse_webhook pawapay_config pawapay_network "body" signed ≡ ok is_done)
    ↔ PawapaySigned pawapay_config pawapay_network "body" signed is_done
pawapay_webhook-Signed_iff_example =
    pawapay_webhook-Signed_iff pawapay_config pawapay_network "body" signed is_done

believed :
    Pawapay.verify_and_parse_webhook pawapay_config pawapay_network "body" signed ≡ ok is_done
unfolding Pawapay.verify_and_parse_webhook
believed = refl

forged_unsigned :
    (event : WebhookEvent) → ¬ PawapaySigned pawapay_config pawapay_network "body" forged event
unfolding filled pick_header
forged_unsigned event s =
    let told : ◌≡◌ {A = Bool} false true =
      ap (λ (h : Option String). elim h [ none ↦ true | some t ↦ str_eq t "abc" ]) s.signed in
    absurd (cc)

abbrev forged_verdict : Result WebhookEvent
forged_verdict = Pawapay.verify_and_parse_webhook pawapay_config pawapay_network "body" forged

dispatch-unsigned_example :
    (e : Error) × (dispatch later pawapay true (reply_of forged_verdict) db ≡ (err e, db))
dispatch-unsigned_example =
    dispatch-unsigned pawapay_config pawapay_network "body" forged later true db forged_unsigned

abbrev captured : PaypalEvent
captured = record {
  id = "E1";
  event_type = "PAYMENT.CAPTURE.COMPLETED";
  resource_id = some "C1";
  order_id = some "R1";
}

abbrev paypal_config : Paypal.Config
paypal_config = record { enabled = true; webhook_id = some "W1" }

abbrev paypal_network : Paypal.Network
paypal_network = record {
  fetch_token = body (record { access_token = "T1"; expires_in = 3600 });
  create_order = λ r. body (record { id = "R1"; status = "CREATED"; links = [] });
  capture = λ token ref. body "COMPLETED";
  verify = λ r. some (some (if str_eq r.transmission_sig "sig" then "SUCCESS" else "FAILURE"));
  refund = λ token ref. body tt;
  parse_event = λ text. some captured;
}

abbrev transmitted : Headers
transmitted =
    ("paypal-transmission-id", one "id")
    ∷ ("paypal-transmission-time", one "time")
    ∷ ("paypal-cert-url", one "url")
    ∷ ("paypal-auth-algo", one "algo")
    ∷ ("paypal-transmission-sig", one "sig")
    ∷ []

abbrev is_captured : WebhookEvent
is_captured = translate_paypal captured

accepted :
    (Paypal.verify_and_parse_webhook paypal_config paypal_network 0 "body" transmitted none).0
    ≡ ok is_captured
unfolding Paypal.verify_and_parse_webhook
accepted = refl

paypal_webhook-Signed_example :
    PaypalSigned paypal_config paypal_network "body" transmitted is_captured
paypal_webhook-Signed_example =
    paypal_webhook-Signed paypal_config paypal_network 0 "body" transmitted none is_captured
      accepted

-- A network on which the token endpoint has broken down.
abbrev down : Paypal.Network
down = record paypal_network { fetch_token = broken }

abbrev hour : Option Paypal.Token
hour = some (record { value = "T1"; expires_at = 3600000 })

first_token : Paypal.get_access_token paypal_config paypal_network 0 none ≡ (ok "T1", hour)
unfolding Paypal.get_access_token
first_token = refl

abbrev providers : Providers
providers = record {
  stripe_config = record { enabled = false; secret_key = none; webhook_secret = none };
  stripe_client = record {
    create_intent = λ r. none;
    create_refund = λ ref amount. false;
    construct_event = λ text signature secret. none;
  };
  paypal_config = paypal_config;
  paypal_network = paypal_network;
  paypal_token = none;
  pawapay_config = pawapay_config;
  pawapay_network = pawapay_network;
  now = 0;
  fresh = "F1";
  text_of = λ i. "id";
  message_of = λ e. "error";
  stripe_payload = λ s. s;
  paypal_payload = λ s. s;
  pawapay_payload = λ b. b.status;
  manual_payload = "{}";
}

abbrev paid_by_pawapay : Payment
paid_by_pawapay = record pending_payment {
  provider = pawapay;
  status = PaymentStatus.succeeded;
  provider_ref = some "D1";
}

abbrev pawapay_db : Db
pawapay_db = record db { payments = paid_by_pawapay ∷ [] }

abbrev paid_by_paypal : Payment
paid_by_paypal = record pending_payment { status = PaymentStatus.succeeded }

abbrev paypal_db : Db
paypal_db = record db { payments = paid_by_paypal ∷ [] }
