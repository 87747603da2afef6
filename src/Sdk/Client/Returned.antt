-- ===== src/Sdk/Client/Returned.antt =====
-- What `payments.create` of sdk/typescript/src/client.ts gives for the view that
-- apps/web/lib/payment-ledger-service.ts makes of a payment.
use openwrapper.Prelude.{
  inr, inl, Option-cases, ℕ, suc, ◌≤◌, ◌≡◌, refl, true, false, Option, none, some, [], ◌==◌,
}
use openwrapper.Js.Text.{◌===◌, Text, codes, or_default}
use openwrapper.Js.Json.{lookup, Json, null, int, str, obj, field, end}
use openwrapper.Ledger.Response.{NextAction, redirect_to_url, pay_at_reference, PaymentView}
use openwrapper.Sdk.Checks.{
  natural, validate_amount, validate_idempotency_key, validate_positive_integer,
}
use openwrapper.Sdk.Providers.{merge_providers, create_headers}
use openwrapper.Sdk.Request.{read_response, Response, responded}
use openwrapper.Sdk.Request.Retries.{IsPatient, AllFail, request_recovers}
use openwrapper.Sdk.Wire.{from_wire, Payment}
use openwrapper.Sdk.Client.{
  run_of, exchange_of, timed, Client, Transport, Call, Exchange, returned, call_of, send,
}
use openwrapper.Sdk.Client.Params.{
  CreatePaymentParams, CreatePaymentOptions, field_if, payment_body,
}
use openwrapper.Sdk.Client.Resources.{read_one, create_payment}

abbrev pub nullable : Option Text → Json
nullable none = null
nullable (some s) = str s

abbrev action_json : NextAction → Json
action_json (redirect_to_url url) =
    obj (
      field (codes "type") (str (codes "redirect_to_url")) (field (codes "url") (nullable url) end))
action_json (pay_at_reference reference instructions) = obj (
    field (codes "type") (str (codes "pay_at_reference")) (
      field (codes "reference") (nullable reference)
        (field (codes "instructions") (str instructions) end)))

abbrev pub optional_action : Option NextAction → Option Json
optional_action none = none
optional_action (some a) = some (action_json a)

-- The view as the JSON that `NextResponse.json` sends.
abbrev pub view_json : PaymentView → Json
view_json v = obj (
    field (codes "payment_id") (str v.payment_id) (
      field (codes "provider") (str v.provider) (
        field (codes "provider_reference") (nullable v.provider_reference) (
          field (codes "status") (str v.status) (
            field (codes "amount_minor_units") (int v.amount_minor_units) (
              field (codes "currency") (str v.currency) (
                field (codes "merchant_reference") (nullable v.merchant_reference)
                  (field_if (codes "next_action") (optional_action v.next_action) end))))))))

-- The payment that the view describes.
abbrev pub payment_of : PaymentView → Payment
payment_of v = record {
  payment_id = some (str v.payment_id);
  provider = some (str v.provider);
  provider_reference = some (nullable v.provider_reference);
  status = some (str v.status);
  amount_minor_units = some (int v.amount_minor_units);
  currency = some (str v.currency);
  merchant_reference = some (nullable v.merchant_reference);
  next_action = optional_action v.next_action;
}

from_wire-view_json : (v : PaymentView) → from_wire (view_json v) ≡ payment_of v
unfolding from_wire lookup ◌===◌
from_wire-view_json v = elim (Option-cases v.next_action) [
  | inl missing ↦ rw missing refl
  | inr (a, given) ↦ rw given refl
]

-- The call of a creation.
abbrev pub creation_call : Client → Text → CreatePaymentParams → CreatePaymentOptions → ℕ → Call
creation_call client key params options n =
    call_of client (codes "POST") (codes "/v1/payments")
      (create_headers key (merge_providers client.providers options.providers))
      (some (payment_body params n))

abbrev pub view_response : ℕ → PaymentView → Response
view_response status v = record {
  ok = true;
  status = status;
  status_text = [];
  body = some (view_json v);
}

timed_passes :
    {A : Type 0} (t : ℕ) (k : ℕ → Exchange A)
    → validate_positive_integer (natural t) ≡ none
    → timed (natural t) k ≡ k t
timed_passes t k good = rw (timed, good) refl

-- When the checks pass, nobody aborts, the network refuses the first `k` calls, with `k` at most
-- `maxRetries`, and the next is answered with a payment's view and a status of success but 204, then the
-- client gives the payment that the view describes, after `k + 1` calls.
pub create_payment-view_response :
    (transport : Transport) (client : Client) (uuid : Text) (params : CreatePaymentParams)
    (options : CreatePaymentOptions) (n t k status : ℕ) (v : PaymentView)
    → params.amount_minor_units ≡ natural n
    → validate_amount (natural n) ≡ none
    → validate_idempotency_key (or_default options.idempotency_key uuid) ≡ none
    → or_default options.timeout_ms client.timeout_ms ≡ natural t
    → validate_positive_integer (natural t) ≡ none
    → (status == 204) ≡ false
    → k ≤ client.max_retries
    → let call = creation_call client (or_default options.idempotency_key uuid) params options n in
      IsPatient (transport call)
      → AllFail (transport call) 0 k
      → (transport call).fetch k ≡ responded (view_response status v)
      → create_payment transport client uuid params options
        ≡ record { reply = returned (payment_of v); call = some call; fetches = suc k }
unfolding create_payment send read_response
create_payment-view_response transport client uuid params options n t k status v given amount key
      timed_out good not_204 room patient fail answer =
    let call = creation_call client (or_default options.idempotency_key uuid) params options n in
    let k_of = λ (u : ℕ). exchange_of (read_one from_wire) call (run_of transport client call u) in
    rw
      (
        given,
        amount,
        key,
        timed_out,
        timed_passes t k_of good,
        request_recovers (transport call) call.url t client.retry_delay_ms client.max_retries k
            (view_response status v) patient room fail answer,
        not_204,
        from_wire-view_json v,
      )
      refl
