-- ===== src/Payments/Retrieve/SessionTests.antt =====
-- A session that waits for its money, and a delivery that calls the payment off.
use mathlib.Core.List.{Memᴰ}
use openwrapper.Prelude.{◌≡◌, refl, some, Option, [], ◌∷◌}
use openwrapper.Js.Text.{Text, codes, ◌===◌}
use openwrapper.Js.Json.{obj, field, str, end}
use openwrapper.Store.{World, PaymentRow}
use openwrapper.Store.Handler.{final}
use openwrapper.Gateway.Bridge.{get_gateway_url, get_payment_from_rust_gateway}
use openwrapper.Gateway.Headers.{entry}
use openwrapper.Webhooks.Shared.{HookEnv}
use openwrapper.Webhooks.Dispatch.{webhook}
use openwrapper.Webhooks.Terminal.{start, then_one, delivered}
use openwrapper.Webhooks.Tests.{env_for, bare}
use openwrapper.Payments.Api.{Request}
use openwrapper.Payments.Create.Tests.{small_env, no_world}
use openwrapper.Payments.Retrieve.{StripeSession, retrieve, is_payment_id}
use openwrapper.Payments.Create.Admit.{authenticate}
use openwrapper.Payments.Create.Tests.{sandbox_key, signed_request}
use openwrapper.Access.Version.{validate_api_version}
use openwrapper.Access.Authenticator.{authenticate_api_request}
use openwrapper.Access.ApiKeys.{get_api_key_environment}
use openwrapper.Store.{first_match}
use openwrapper.Payments.Retrieve.Tests.{sandbox_row}
use openwrapper.Payments.Retrieve.Sessions.{retrieve-unpaid}

abbrev waiting : StripeSession
waiting = record { payment_status = codes "unpaid"; status = codes "complete" }

abbrev all_waiting : Text → Text → Option StripeSession
all_waiting key reference = some waiting

abbrev promised_row : PaymentRow
promised_row = record sandbox_row {
  provider = codes "stripe";
  provider_reference = some (codes "cs_1");
  status = codes "pending";
}

abbrev promised_world : World
promised_world = record no_world { payments = promised_row ∷ [] }

abbrev keyed_request : Request
keyed_request = record signed_request {
  entries =
      (codes "authorization", codes "Bearer ow_test_sandbox_demo")
      ∷ (codes "x-stripe-secret-key", codes "sk_1")
      ∷ [];
}

-- The body says that the payment has failed.
abbrev failing_env : HookEnv
failing_env = env_for (
    obj (
      field (codes "payment_id") (str (codes "pay_1"))
        (field (codes "status") (str (codes "failed")) end)))

abbrev after_get : World
after_get = final (retrieve small_env all_waiting (codes "pay_1") keyed_request promised_world)

authenticate-keyed : authenticate small_env keyed_request promised_world ≡ some sandbox_key
unfolding authenticate_api_request entry get_api_key_environment
authenticate-keyed = refl

retrieve-unpaid_example :
    (q : PaymentRow) × Memᴰ q
      (final (webhook failing_env (codes "v1") (codes "mock") bare after_get)).payments
    × (q.id ≡ codes "pay_1")
    × (q.status ≡ codes "succeeded")
unfolding get_payment_from_rust_gateway get_gateway_url entry validate_api_version is_payment_id
    first_match ◌===◌
retrieve-unpaid_example =
    retrieve-unpaid small_env all_waiting keyed_request (codes "v1") (codes "pay_1") promised_world
      sandbox_key promised_row (codes "sk_1") (codes "cs_1") waiting 503
      (codes "Rust gateway is not configured") (some (codes "gateway_unavailable")) (tt, tt) refl
      authenticate-keyed refl refl refl refl refl refl refl refl refl refl refl refl refl
      (then_one start (delivered failing_env (codes "v1") (codes "mock") bare))
