-- ===== src/Payments/Api.antt =====
-- What the payment routes share: the request, the response, the surroundings of the service, and the
-- helpers at the top of apps/web/app/api/[version]/payments/route.ts.
use openwrapper.Prelude.{
  ℕ, Bool, true, false, ◌&&◌, ◌||◌, Option, none, some, List, leb, if◌then◌else◌, every, length,
}
use openwrapper.Js.Text.{
  Text, codes, ◌===◌, present, ◌or◌, is_text, lower_opt, trim_opt, trim, starts_with, to_lower,
}
use openwrapper.Js.Json.{Json}
use openwrapper.Store.{Mode, live, test, Sql}
use openwrapper.Store.Handler.{Handler, answer, schedule}
use openwrapper.Access.Authenticator.{Headers, AuthKey, after_bearer}
use openwrapper.Gateway.Headers.{Entries, entry}
use openwrapper.Gateway.Bridge.{Fetched, Url}
use openwrapper.Ledger.Response.{NextAction, PaymentView}

-- The version is a path segment; header names are in lower case, as `Headers` lists them.
pub record Request : Type 0 where
  pub version : Text
  pub entries : Entries
  pub body : Option (List (List ℕ))

abbrev pub headers_of : Request → Headers
headers_of r name = entry name r.entries

-- The JSON object that reading one payment gives.
pub record PaymentDetails : Type 0 where
  pub payment_id : Text
  pub provider : Text
  pub provider_reference : Option Text
  pub status : Text
  pub amount_minor_units : ℕ
  pub currency : Text
  pub merchant_reference : Option Text
  pub description : Option Text
  pub customer_phone : Option Text
  pub customer_email : Option Text
  pub customer_name : Option Text
  pub next_action : Option NextAction
  pub created_at : ℕ
  pub updated_at : ℕ

pub data Body : Type 0 where
  details : PaymentDetails → Body
  error : (code : Text) → (message : Text) → Body
  payment : PaymentView → Body
  listed : List PaymentDetails → Body

pub record ApiResponse : Type 0 where
  pub status : ℕ
  pub body : Body

-- What `checkout.sessions.create` is called with.
pub record StripeParams : Type 0 where
  pub amount_minor_units : ℕ
  pub currency : Text
  pub description : Option Text
  pub customer_email : Option Text
  pub success_url : Text
  pub cancel_url : Text
  pub idempotency_key : Text
  pub metadata : List (Text × Text)

pub data StripeOutcome : Type 0 where
  session : (id : Text) → (url : Option Text) → StripeOutcome
  thrown : (message : Text) → StripeOutcome

-- The surroundings: the database, cryptography, parsers of the platform, environment variables, the
-- two services over the network, the clock and the random part of an id.
pub record Env : Type 1 where
  pub sql : Sql
  pub sha256 : Text → Text
  pub stringify : Json → Text
  pub parse_json : Text → Option Json
  pub decode : List ℕ → Text
  pub parse_url : Text → Option Url
  pub is_email : Text → Bool
  pub is_url : Text → Bool
  pub encode_uri : Text → Text
  pub vars : Text → Option Text
  pub gateway_create : Json → Text → Entries → Fetched
  pub gateway_get : Text → Entries → Fetched
  pub stripe_create : Text → StripeParams → StripeOutcome
  pub random_hex : Text
  pub now : ℕ
  pub started_at : ℕ
  pub routing_ms : ℕ
  pub lookup_fails : Bool
  pub persist_fails : Bool

-- `value.replace(/^Bearer\s+/i, "")`
abbrev without_bearer : Text → Text
without_bearer s = elim (after_bearer s) [ none ↦ s | some rest ↦ rest ]

abbrev bearer_value : Option Text → Option Text
bearer_value none = none
bearer_value (some s) = some (trim (without_bearer s))

-- `extractApiToken`: unlike the authenticator it takes any Authorization header.
unfoldable pub extract_api_token : Headers → Option Text
unfolding after_bearer trim
extract_api_token headers =
    let found =
      bearer_value (headers (codes "authorization")) or trim_opt (headers (codes "x-api-key")) in
    if present found then found else none

abbrev is_test_token : Option Text → Bool
is_test_token none = false
is_test_token (some t) =
    starts_with t (codes "ow_test_")
    || t === codes "ow_test_sandbox_demo"
    || t === codes "ow_demo_sandbox_key"

abbrev is_test_env : Mode → Bool
is_test_env live = false
is_test_env test = true

unfoldable pub is_test_mode : AuthKey → Headers → Bool
unfolding extract_api_token ◌===◌ to_lower starts_with
is_test_mode key headers =
    is_test_env key.environment
    || is_text (lower_opt (headers (codes "x-openwrapper-environment"))) (codes "test")
    || is_test_token (extract_api_token headers)

abbrev pub mode_of : Bool → Mode
mode_of true = test
mode_of false = live

abbrev pub is_printable : ℕ → Bool
is_printable c = leb 0x21 c && leb c 0x7E

-- `/^[\x21-\x7E]{1,200}$/`
unfoldable pub is_idempotency_key : Text → Bool
unfolding every
is_idempotency_key key = leb 1 (length key) && leb (length key) 200 && every is_printable key

abbrev pub fail : {A : Type 0} → ℕ → Text → Text → Handler ApiResponse A
fail status code message w = answer (record { status = status; body = error code message }) w

-- A call of `scheduleApiRequestRecord` in these routes.
abbrev pub log :
    (env : Env)
    → AuthKey
    → Text
    → Text
    → ℕ
    → Option ℕ
    → Option Mode
    → Handler ApiResponse (Unit {0})
log env key method endpoint status routing mode = schedule (record {
  user_id = key.user_id;
  api_key_id = some key.id;
  method = method;
  endpoint = endpoint;
  status_code = status;
  started_at = env.started_at;
  routing_latency_ms = routing;
  environment = mode;
})
