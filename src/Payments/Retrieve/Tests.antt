-- ===== src/Payments/Retrieve/Tests.antt =====
-- Reading a payment of the sandbox user.
use openwrapper.Prelude.{◌≡◌, refl, Option, none, some, [], ◌∷◌}
use openwrapper.Js.Text.{◌===◌, Text, codes}
use openwrapper.Store.{World, PaymentRow}
use openwrapper.Store.Handler.{final}
use openwrapper.Store.{first_match}
use openwrapper.Access.Authenticator.{sandbox_user, authenticate_api_request}
use openwrapper.Gateway.Headers.{entry}
use openwrapper.Webhooks.Applied.{Preserves}
use openwrapper.Payments.Api.{ApiResponse, details}
use openwrapper.Payments.Create.Tests.{small_env, signed_request}
use openwrapper.Payments.Retrieve.{take_gateway, StripeSession, retrieve, details_of, current_of}
use openwrapper.Payments.Retrieve.Reads.{retrieve-Preserves}
use mathlib.Core.List.{Memᴰ}
use openwrapper.Gateway.Bridge.{GatewayPayment, ok}
use openwrapper.Payments.Retrieve.Overtaken.{take_gateway-overtaken}
use openwrapper.Payments.Retrieve.Owner.{IsOwn, retrieve-IsOwn}

abbrev pub sandbox_row : PaymentRow
sandbox_row = record {
  id = codes "pay_1";
  user_id = some sandbox_user;
  api_key_id = some 0;
  idempotency_key = codes "k1";
  request_fingerprint = codes "f1";
  provider = codes "fawry";
  provider_reference = none;
  status = codes "succeeded";
  amount_minor_units = 500;
  currency = codes "EGP";
  merchant_reference = none;
  description = none;
  customer_phone = none;
  customer_email = none;
  customer_name = none;
  next_action_type = none;
  next_action_payload = none;
  metadata_json = none;
  environment = codes "test";
  created_at = 7;
  updated_at = 7;
}

abbrev pub one_payment : World
one_payment = record {
  payments = sandbox_row ∷ [];
  api_keys = [];
  api_requests = [];
  webhook_events = [];
  scheduled = [];
}

abbrev no_session : Text → Text → Option StripeSession
no_session key reference = none

retrieve-Preserves_example :
    Preserves one_payment
      (final (retrieve small_env no_session (codes "pay_1") signed_request one_payment))
retrieve-Preserves_example =
    retrieve-Preserves small_env no_session (codes "pay_1") signed_request one_payment (tt, tt)

abbrev shown_response : ApiResponse
shown_response = record {
  status = 200;
  body = details (details_of sandbox_row (current_of sandbox_row));
}

abbrev after_reading : World
after_reading = final (retrieve small_env no_session (codes "pay_1") signed_request one_payment)

retrieve-IsOwn_example :
    IsOwn small_env no_session (codes "pay_1") signed_request one_payment shown_response
unfolding retrieve authenticate_api_request entry first_match
retrieve-IsOwn_example =
    retrieve-IsOwn small_env no_session (codes "pay_1") signed_request one_payment after_reading
      shown_response refl

-- The payment as it was read, before the delivery that stored `sandbox_row`.
abbrev unknown_row : PaymentRow
unknown_row = record sandbox_row { status = codes "unknown" }

abbrev late_answer : GatewayPayment
late_answer = record {
  payment_id = codes "pay_1";
  provider_reference = none;
  status = codes "pending";
  next_action = none;
}

take_gateway-overtaken_example :
    (q' : PaymentRow) × Memᴰ q'
      (final (take_gateway small_env no_session unknown_row (ok late_answer) one_payment)).payments
    × (q'.id ≡ codes "pay_1")
    × (q'.status ≡ codes "pending")
unfolding ◌===◌
take_gateway-overtaken_example =
    take_gateway-overtaken small_env no_session unknown_row sandbox_row late_answer one_payment refl
      (Memᴰ.head refl) refl
