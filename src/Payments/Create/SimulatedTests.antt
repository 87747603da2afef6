-- ===== src/Payments/Create/SimulatedTests.antt =====
-- A live `POST` of a Fawry payment while the gateway is down.
use mathlib.Core.List.{Memᴰ}
use openwrapper.Prelude.{none, ◌≡◌, refl, false, some, [], ◌∷◌, ◌++◌}
use openwrapper.Js.Text.{◌===◌, codes}
use openwrapper.Access.Tests.{one_key}
use openwrapper.Js.Json.{Json, obj, str, int, field, end}
use openwrapper.Store.{PaymentRow, live, first_match}
use openwrapper.Store.Handler.{next}
use openwrapper.Access.Credentials.{
  headers_say_test, has_ambient_fawry, missing_headers, has_header,
}
use openwrapper.Gateway.Headers.{entry}
use openwrapper.Gateway.Bridge.{is_unreachable, get_gateway_url, forward_payment_to_rust_gateway}
use openwrapper.Access.ApiKeys.{hash_api_key, get_api_key_environment}
use openwrapper.Access.Authenticator.{authenticate_api_request, AuthKey}
use openwrapper.Ledger.Idempotency.{absent, find_idempotent_payment}
use openwrapper.Payments.Api.{Env, Request}
use openwrapper.Payments.Input.{parse_payment_input}
use openwrapper.Payments.Create.Admit.{Admitted, admit, assemble}
use openwrapper.Payments.Create.Replay.{lookup_in}
use openwrapper.Payments.Create.Post.{check_credentials, post}
use openwrapper.Payments.Create.Simulated.{IsMadeUp, post-live_unreachable}
use openwrapper.Payments.Create.Tests.{silent_env, input_for, silent_url}

abbrev fawry_body : Json
fawry_body = obj (
    field (codes "provider") (str (codes "fawry")) (
      field (codes "amount_minor_units") (int 100) (
        field (codes "currency") (str (codes "EGP")) (
          field (codes "customer") (obj (field (codes "phone") (str (codes "+201234567890")) end))
            end))))

abbrev down_env : Env
down_env = record silent_env { parse_json = λ _. some fawry_body }

abbrev live_request : Request
live_request = record {
  version = codes "v1";
  entries =
      (codes "authorization", codes "Bearer ow_live_x")
      ∷ (codes "idempotency-key", codes "k1")
      ∷ (codes "x-fawry-merchant-code", codes "m")
      ∷ (codes "x-fawry-secure-key", codes "s")
      ∷ [];
  body = none;
}

abbrev merchant_key : AuthKey
merchant_key = record {
  id = 4;
  user_id = codes "u1";
  prefix = codes "ow_live_x";
  environment = live;
}

abbrev live_admitted : Admitted
live_admitted =
    assemble down_env (codes "v1") merchant_key (some (codes "ow_live_x")) false (codes "k1")
      fawry_body (input_for (codes "fawry")) 100

admit-down : admit down_env live_request one_key ≡ next live_admitted one_key
unfolding admit authenticate_api_request entry parse_payment_input get_api_key_environment ◌===◌
    first_match hash_api_key
admit-down = refl

lookup_in-down : lookup_in down_env live_admitted one_key ≡ absent
unfolding find_idempotent_payment first_match
lookup_in-down = refl

check_credentials-down :
    check_credentials down_env live_request live_admitted one_key ≡ next tt one_key
unfolding check_credentials assemble headers_say_test entry has_ambient_fawry missing_headers
    has_header
check_credentials-down = refl

post-live_unreachable_example :
    let (response, w') = post down_env live_request one_key in
    (response.status ≡ 201)
    × ((q : PaymentRow) × Memᴰ q w'.payments × IsMadeUp (codes "pay_0123") (codes "fawry") q)
unfolding forward_payment_to_rust_gateway get_gateway_url ◌===◌ assemble is_unreachable
post-live_unreachable_example =
    post-live_unreachable down_env live_request live_admitted one_key (codes "http://gw") 502
      (codes "Could not reach Rust gateway: " ++ codes "ECONNREFUSED")
      (some (codes "gateway_unreachable")) admit-down lookup_in-down check_credentials-down refl
      refl silent_url refl refl refl tt
