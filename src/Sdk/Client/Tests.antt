-- ===== src/Sdk/Client/Tests.antt =====
-- The client on concrete calls, and a call that arrives at the service.
use openwrapper.Prelude.{◌==◌, if◌then◌else◌, ◌≡◌, refl, true, false, none, some, [], ◌∷◌, arith}
use openwrapper.Js.Text.{trim, ◌===◌, codes}
use openwrapper.Js.Json.{obj, end}
use openwrapper.Store.{test}
use openwrapper.Store.Handler.{next}
use openwrapper.Access.Authenticator.{authenticate_api_request, AuthKey, sandbox_user}
use openwrapper.Payments.Create.Admit.{Admitted, admit}
use openwrapper.Payments.Create.Tests.{mock_body, small_env, signed_request, no_world}
use openwrapper.Sdk.Checks.{
  validate_positive_integer, validate_idempotency_key, validate_amount, natural, type_error,
}
use openwrapper.Sdk.Request.{failed, Net, responded}
use openwrapper.Sdk.Client.{returned, Client, Call, nothing_sent}
use openwrapper.Sdk.Client.Params.{CreatePaymentParams, CreatePaymentOptions, mock, egp}
use openwrapper.Sdk.Client.Parsed.{IsWithin}
use openwrapper.Sdk.Client.Resources.{create_payment, get_payment}
use openwrapper.Ledger.Response.{PaymentView, redirect_to_url}
use openwrapper.Sdk.Client.Returned.{
  view_response, payment_of, creation_call, create_payment-view_response,
}
use openwrapper.Sdk.Client.Sent.{RefusedOrSent, create_payment-RefusedOrSent}
use openwrapper.Sdk.Client.Admitted.{IsAdmittedAs, admit-create_payment}
use openwrapper.Access.Version.{validate_api_version}
use openwrapper.Gateway.Headers.{entry}
use openwrapper.Access.ApiKeys.{get_api_key_environment}
use openwrapper.Access.BodyReader.{read_limited_text_body}

abbrev answering : Net
answering = record {
  fetch = λ n.
      responded
        (record { ok = true; status = 201; status_text = codes "Created"; body = some (obj end) });
  aborted_before = λ n. false;
  aborted_asleep = λ n. false;
}

abbrev small_client : Client
small_client = record {
  base_url = codes "https://pay.example/v1";
  api_key = some (codes "ow_test_sandbox_demo");
  providers = none;
  max_retries = 2;
  retry_delay_ms = 200;
  timeout_ms = natural 30_000;
}

abbrev mock_params : CreatePaymentParams
mock_params = record {
  provider = mock;
  amount_minor_units = natural 100;
  currency = egp;
  customer = record { phone = codes "+201234567890"; email = none; full_name = none };
  merchant_reference = none;
  description = none;
  return_url = none;
  metadata = none;
}

abbrev no_options : CreatePaymentOptions
no_options = record { idempotency_key = some (codes "k1"); providers = none; timeout_ms = none }

create_payment-RefusedOrSent_example :
    RefusedOrSent small_client
      (codes "k1")
      mock_params
      (λ _. none)
      (create_payment (λ _. answering) small_client (codes "u1") mock_params no_options)
create_payment-RefusedOrSent_example =
    create_payment-RefusedOrSent (λ _. answering) small_client (λ _. none) (codes "u1") mock_params
      no_options

abbrev small_call : Call
small_call = record {
  method = codes "POST";
  url = codes "https://pay.example/v1/payments";
  headers =
      (codes "Content-Type", codes "application/json")
      ∷ (codes "Idempotency-Key", codes "k1")
      ∷ (codes "Authorization", codes "Bearer ow_test_sandbox_demo")
      ∷ (codes "X-API-Key", codes "ow_test_sandbox_demo")
      ∷ [];
  body = some mock_body;
}

abbrev demo_caller : AuthKey
demo_caller = record {
  id = 0;
  user_id = sandbox_user;
  prefix = codes "ow_test_sand";
  environment = test;
}

mock_params-IsWithin : IsWithin (λ _. true) (λ _. true) mock_params
unfolding trim
mock_params-IsWithin = record {
  phone = (
    refl,
    omega arith,
    (
      refl,
      (
        refl,
        (refl, (refl, (refl, (refl, (refl, (refl, (refl, (refl, (refl, (refl, (refl, tt))))))))))),
      ),
    ),
  );
  phone_length = omega arith;
  email = tt;
  full_name = tt;
  merchant_reference = tt;
  description = tt;
  return_url = tt;
  metadata = tt;
}

admit-create_payment_example :
    (a : Admitted) × (admit small_env signed_request no_world ≡ next a no_world)
    × IsAdmittedAs demo_caller (codes "k1") mock_params a
unfolding ◌===◌ create_payment validate_api_version authenticate_api_request entry
    get_api_key_environment read_limited_text_body
admit-create_payment_example =
    admit-create_payment small_env signed_request no_world demo_caller (codes "v1") []
      (λ _. answering) small_client (codes "u1") mock_params no_options (λ _. none) small_call refl
      mock_params-IsWithin refl refl refl refl refl

-- Nothing is sent for an empty id.
get_payment_empty : get_payment (λ _. answering) small_client [] none ≡ nothing_sent type_error
unfolding get_payment
get_payment_empty = refl

abbrev small_view : PaymentView
small_view = record {
  payment_id = codes "p1";
  provider = codes "mock";
  provider_reference = none;
  status = codes "pending";
  amount_minor_units = 100;
  currency = codes "EGP";
  merchant_reference = none;
  next_action = some (redirect_to_url (some (codes "https://pay.example/mock")));
}

-- The first call is refused, the others are answered with the view.
abbrev second_time : Net
second_time = record {
  fetch = λ n.
      if n == 0
      then failed (codes "ECONNRESET") false false
      else responded (view_response 201 small_view);
  aborted_before = λ n. false;
  aborted_asleep = λ n. false;
}

create_payment-view_response_example :
    create_payment (λ _. second_time) small_client (codes "u1") mock_params no_options ≡ record {
      reply = returned (payment_of small_view);
      call = some (creation_call small_client (codes "k1") mock_params no_options 100);
      fetches = 2;
    }
unfolding validate_amount validate_idempotency_key validate_positive_integer
create_payment-view_response_example =
    create_payment-view_response (λ _. second_time) small_client (codes "u1") mock_params no_options
      100 30_000 1 201 small_view refl refl refl refl refl refl (omega arith) (λ n. (refl, refl))
      (refl, tt) refl
