-- ===== src/Webhooks/Tests.antt =====
-- Deliveries to the webhooks on a table with one payment.
use mathlib.Core.List.{Memᴰ}
use openwrapper.Js.Json
use openwrapper.Prelude.{
  true, arith, ℕ, sym, ◌∙◌, ap, length, ◌≡◌, refl, false, none, some, [], ◌∷◌,
}
use openwrapper.Js.Text.{codes, ◌===◌}
use openwrapper.Webhooks.Fawry.{read_payload}
use openwrapper.Webhooks.Paymob.{read_event as read_paymob_event}
use openwrapper.Signatures.Rails.{
  get_fawry_config, verify_fawry_webhook_signature, get_paymob_config, verify_paymob_hmac,
}
use openwrapper.Js.Json.{Json, obj, str, Fields, field, end}
use openwrapper.Store.{World, PaymentRow}
use openwrapper.Store.Handler.{final}
use openwrapper.Store.Laws.{first_sql}
use openwrapper.Access.BodyReader.{read_limited_text_body}
use openwrapper.Webhooks.Shared.{HookEnv, HookRequest}
use openwrapper.Webhooks.Fawry.{FawryPayload, fawry_webhook, apply_fawry}
use openwrapper.Webhooks.Paymob.{PaymobEvent, paymob_webhook, apply_paymob}
use openwrapper.Webhooks.Authentic.{
  IsSignedByFawry, IsSignedByPaymob, fawry_webhook-authentic, paymob_webhook-authentic,
}
use openwrapper.Js.Json.{bool}
use openwrapper.Webhooks.Mock.{mock_webhook}
use openwrapper.Webhooks.Dispatch.{webhook}
use openwrapper.Webhooks.Applied.{Preserves}
use openwrapper.Webhooks.Terminal.{start, then_one, delivered, Deliveries-Preserve}
use openwrapper.Webhooks.Unsigned.{mock_webhook-unsigned, IsSettled}

abbrev pub live_row : PaymentRow
live_row = record {
  id = codes "pay_1";
  user_id = some (codes "u1");
  api_key_id = some 4;
  idempotency_key = codes "k1";
  request_fingerprint = codes "f1";
  provider = codes "stripe";
  provider_reference = none;
  status = codes "pending";
  amount_minor_units = 500;
  currency = codes "EGP";
  merchant_reference = none;
  description = none;
  customer_phone = none;
  customer_email = none;
  customer_name = none;
  next_action_type = none;
  next_action_payload = none;
  metadata_json = none;
  environment = codes "live";
  created_at = 7;
  updated_at = 7;
}

abbrev pub one_payment : World
one_payment = record {
  payments = live_row ∷ [];
  api_keys = [];
  api_requests = [];
  webhook_events = [];
  scheduled = [];
}

abbrev mock_fields : Fields
mock_fields = field (codes "payment_id") (str (codes "pay_1")) end

abbrev pub env_for : Json → HookEnv
env_for payload = record {
  sql = first_sql;
  parse_json = λ _. some payload;
  decode = λ bytes. bytes;
  vars = λ name. some (codes "v");
  sha256 = λ s. codes "ab";
  hmac_sha256 = λ _ _. codes "ab";
  hmac_sha512 = λ _ _. codes "ab";
  construct_event = λ _ _ _. none;
  uuid = codes "uuid";
  now = 9;
  db_fails = false;
}

abbrev pub bare : HookRequest
bare = record { headers = λ _. none; body = none; query_hmac = none }

Deliveries-Preserve_example :
    Preserves one_payment
      (final (webhook (env_for (obj mock_fields)) (codes "v1") (codes "mock") bare one_payment))
Deliveries-Preserve_example =
    Deliveries-Preserve (tt, tt)
      (then_one start (delivered (env_for (obj mock_fields)) (codes "v1") (codes "mock") bare))

mock_webhook-unsigned_example :
    (q : PaymentRow) × Memᴰ q
      (final (mock_webhook (env_for (obj mock_fields)) bare one_payment)).payments
    × IsSettled live_row q
unfolding read_limited_text_body ◌===◌ Json.get
mock_webhook-unsigned_example =
    mock_webhook-unsigned (env_for (obj mock_fields)) bare one_payment [] mock_fields live_row refl
      refl refl refl refl refl refl refl (tt, tt) (Memᴰ.head refl) refl

abbrev events_of : World → ℕ
events_of w = length w.webhook_events

abbrev fawry_env : HookEnv
fawry_env = env_for (
    obj (
      field (codes "fawryRefNumber") (str (codes "r1")) (
        field (codes "orderStatus") (str (codes "PAID"))
          (field (codes "signature") (str (codes "ab")) end))))

fawry_writes : events_of (final (fawry_webhook fawry_env bare one_payment)) ≡ 1
unfolding fawry_webhook read_payload get_fawry_config verify_fawry_webhook_signature
fawry_writes = refl

fawry_webhook-authentic_example :
    (p : FawryPayload) × IsSignedByFawry fawry_env bare p
    × (final (fawry_webhook fawry_env bare one_payment) ≡ apply_fawry fawry_env p one_payment)
fawry_webhook-authentic_example =
    fawry_webhook-authentic fawry_env bare one_payment
      (λ e. let clash : 1 ≡ 0 = sym fawry_writes ∙ ap events_of e in omega arith)

abbrev paymob_env : HookEnv
paymob_env = env_for (
    obj (
      field (codes "hmac") (str (codes "ab"))
        (field (codes "id") (str (codes "t1")) (field (codes "success") (bool true) end))))

paymob_writes : events_of (final (paymob_webhook paymob_env bare one_payment)) ≡ 1
unfolding paymob_webhook get_paymob_config verify_paymob_hmac read_paymob_event
paymob_writes = refl

paymob_webhook-authentic_example :
    (e : PaymobEvent) × IsSignedByPaymob paymob_env bare e
    × (final (paymob_webhook paymob_env bare one_payment) ≡ apply_paymob paymob_env e one_payment)
paymob_webhook-authentic_example =
    paymob_webhook-authentic paymob_env bare one_payment
      (λ e. let clash : 1 ≡ 0 = sym paymob_writes ∙ ap events_of e in omega arith)
