-- ===== src/Payments/Create/Tests.antt =====
-- `POST` on concrete requests: a sandbox key, an empty database, no gateway.
use openwrapper.Prelude.{
  if◌then◌else◌, sym, ◌∙◌, ◌≡◌, ◌≢◌, refl, Bool, true, false, none, some, [], ◌∷◌, ◌++◌, arith,
}
use openwrapper.Js.Text.{starts_with, ◌===◌, Text, codes}
use openwrapper.Js.Json.{Json, obj, str, int, field, end}
use openwrapper.Store.{World, test}
use openwrapper.Store.Handler.{next}
use openwrapper.Store.Laws.{first_sql}
use openwrapper.Gateway.Headers.{entry}
use openwrapper.Access.ApiKeys.{get_api_key_environment}
use openwrapper.Payments.Input.{parse_payment_input}
use openwrapper.Ledger.Idempotency.{absent, find_idempotent_payment}
use openwrapper.Payments.Create.Replay.{lookup_in}
use openwrapper.Payments.Create.Post.{check_credentials}
use openwrapper.Access.Authenticator.{authenticate_api_request, AuthKey, sandbox_user}
use openwrapper.Store.{first_match}
use openwrapper.Gateway.Bridge.{
  get_gateway_url, forward_payment_to_rust_gateway, GatewayPayment, success, Fetched, thrown, Url,
}
use openwrapper.Payments.Api.{Env, Request, session}
use openwrapper.Payments.Input.{PaymentInput, Customer}
use openwrapper.Payments.Create.Admit.{Admitted, assemble, admit}
use openwrapper.Payments.Create.Gateway.{routed_of, Routed, gateway_url, asked}
use openwrapper.Payments.Create.Route.{mock_payment, route}
use openwrapper.Payments.Create.Post.{post}
use openwrapper.Payments.Create.Idempotence.{at_later, post-post}
use openwrapper.Payments.Create.Untouched.{post-unchanged}
use openwrapper.Payments.Create.Fallback.{route-live, IsSourced}
use openwrapper.Ledger.Terminal.{ids}

abbrev pub no_world : World
no_world = record {
  payments = [];
  api_keys = [];
  api_requests = [];
  webhook_events = [];
  scheduled = [];
}

abbrev pub mock_body : Json
mock_body = obj (
    field (codes "provider") (str (codes "mock")) (
      field (codes "amount_minor_units") (int 100) (
        field (codes "currency") (str (codes "EGP")) (
          field (codes "customer") (obj (field (codes "phone") (str (codes "+201234567890")) end))
            end))))

-- A service without gateway and without variables; hashes and printed JSON are what they are made of.
abbrev pub small_env : Env
small_env = record {
  sql = first_sql;
  sha256 = λ s. s;
  stringify = λ _. codes "{}";
  parse_json = λ _. some mock_body;
  decode = λ bytes. bytes;
  parse_url = λ _. none;
  is_email = λ _. true;
  is_url = λ _. true;
  encode_uri = λ s. s;
  vars = λ _. none;
  gateway_create = λ _ _ _. thrown (codes "down");
  gateway_get = λ _ _. thrown (codes "down");
  stripe_create = λ _ _. session (codes "cs_1") none;
  random_hex = codes "0123";
  now = 7;
  started_at = 0;
  routing_ms = 1;
  lookup_fails = false;
  persist_fails = false;
}

abbrev pub signed_request : Request
signed_request = record {
  version = codes "v1";
  entries =
      (codes "authorization", codes "Bearer ow_test_sandbox_demo")
      ∷ (codes "idempotency-key", codes "k1")
      ∷ [];
  body = none;
}

abbrev pub sandbox_key : AuthKey
sandbox_key = record {
  id = 0;
  user_id = sandbox_user;
  prefix = codes "ow_test_sand";
  environment = test;
}

abbrev phone_only : Customer
phone_only = record {
  phone = codes "+201234567890";
  email = none;
  full_name = none;
  full_name_camel = none;
}

abbrev pub input_for : Text → PaymentInput
input_for provider = record {
  provider = provider;
  amount_minor_units = some 100;
  amount = none;
  currency = codes "EGP";
  customer = phone_only;
  merchant_reference = none;
  merchant_reference_camel = none;
  description = none;
  return_url = none;
  return_url_camel = none;
  metadata = none;
}

abbrev admitted_for : Env → Bool → Text → Admitted
admitted_for env is_test provider =
    assemble env (codes "v1") sandbox_key (some (codes "ow_test_sandbox_demo")) is_test (codes "k1")
      mock_body (input_for provider) 100

abbrev mock_admitted : Admitted
mock_admitted = admitted_for small_env true (codes "mock")

admit_runs : admit small_env signed_request no_world ≡ next mock_admitted no_world
unfolding admit authenticate_api_request entry parse_payment_input get_api_key_environment
admit_runs = refl

lookup_runs : lookup_in small_env mock_admitted no_world ≡ absent
unfolding find_idempotent_payment first_match
lookup_runs = refl

credentials_run :
    check_credentials small_env signed_request mock_admitted no_world ≡ next tt no_world
unfolding check_credentials assemble
credentials_run = refl

abbrev mock_routed : Routed
mock_routed = mock_payment small_env signed_request mock_admitted

route_runs : route small_env signed_request mock_admitted no_world ≡ next mock_routed no_world
unfolding route assemble get_gateway_url
route_runs = refl

post-post_example :
    let (first, w') = post small_env signed_request no_world in
    let (second, w'') =
      post
        (at_later small_env
          (λ _ _ _. thrown (codes "gone"))
          (λ _ _. session (codes "cs_2") none)
          (codes "4567")
          9
          3)
        signed_request
        w' in
    (first.status ≡ 201)
    × (second.status ≡ 200)
    × (second.body ≡ first.body)
    × (ids w'.payments ≡ [] ++ codes "pay_0123" ∷ [])
    × (ids w''.payments ≡ ids w'.payments)
unfolding starts_with assemble
post-post_example =
    post-post small_env signed_request mock_admitted mock_routed no_world
      (λ _ _ _. thrown (codes "gone")) (λ _ _. session (codes "cs_2") none) (codes "4567") 9 3
      admit_runs lookup_runs credentials_run route_runs refl refl tt

-- The state with one payment, and a request without a key.
abbrev one_payment : World
one_payment = (post small_env signed_request no_world).1

abbrev bare_request : Request
bare_request = record { version = codes "v1"; entries = []; body = none }

bare_status : (post small_env bare_request one_payment).0.status ≡ 401
unfolding post admit authenticate_api_request entry
bare_status = refl

post-unchanged_example : (post small_env bare_request one_payment).1.payments ≡ one_payment.payments
post-unchanged_example =
    post-unchanged small_env bare_request one_payment
      (λ e. let clash : 401 ≡ 200 = sym bare_status ∙ e in omega arith)
      (λ e. let clash : 401 ≡ 201 = sym bare_status ∙ e in omega arith)

-- A gateway that is configured.
abbrev gateway_at : Url
gateway_at = record {
  protocol = codes "http:";
  username = [];
  password = [];
  search = [];
  hash = [];
  href = codes "http://gw";
}

abbrev gateway_env : Fetched → Env
gateway_env answer = record small_env {
  vars =
      λ name. if name === codes "OPENWRAPPER_GATEWAY_URL" then some (codes "http://gw") else none;
  parse_url = λ _. some gateway_at;
  gateway_create = λ _ _ _. answer;
}

abbrev pub silent_env : Env
silent_env = gateway_env (thrown (codes "ECONNREFUSED"))

abbrev live_fawry : Admitted
live_fawry = admitted_for silent_env false (codes "fawry")

pub silent_url : gateway_url silent_env ≡ some (codes "http://gw")
unfolding get_gateway_url ◌===◌
silent_url = refl

-- A gateway that answers with a payment.
abbrev kiosk_payment : GatewayPayment
kiosk_payment = record {
  payment_id = codes "pay_9";
  provider_reference = some (codes "f1");
  status = codes "pending";
  next_action = none;
}

abbrev answering_env : Env
answering_env = gateway_env (success (some kiosk_payment) [])

abbrev live_answered : Admitted
live_answered = admitted_for answering_env false (codes "fawry")

route-live_example :
    (gateway_url answering_env ≢ none)
    × IsSourced answering_env signed_request live_answered
        (asked answering_env signed_request live_answered)
        (routed_of answering_env kiosk_payment)
unfolding assemble ◌===◌ route get_gateway_url forward_payment_to_rust_gateway
route-live_example =
    route-live answering_env signed_request live_answered no_world no_world
      (routed_of answering_env kiosk_payment) refl refl refl
