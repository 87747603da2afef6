-- ===== src/Gateway/Bridge.antt =====
-- `forwardPaymentToRustGateway` and `getPaymentFromRustGateway` of apps/web/lib/gateway-bridge.ts.
-- What `fetch` gives back is an argument.
use openwrapper.Prelude.{ℕ, Bool, not, ◌&&◌, ◌||◌, Option, none, some, ◌++◌, if◌then◌else◌}
use openwrapper.Js.Text.{
  Text, codes, ◌===◌, present, truthy, is_text, includes, to_lower, or_text, strip_slashes,
}
use openwrapper.Js.Decimal.{show}

pub record GatewayNextAction : Type 0 where
  pub type : Text
  pub url : Option Text
  pub reference : Option Text

-- The fields of `GatewayPaymentResponse` that the service reads.
pub record GatewayPayment : Type 0 where
  pub payment_id : Text
  pub provider_reference : Option Text
  pub status : Text
  pub next_action : Option GatewayNextAction

pub data GatewayResult : Type 0 where
  ok : GatewayPayment → GatewayResult
  refused : (status : ℕ) → (error : Text) → (code : Option Text) → GatewayResult

-- How `fetch` ends: it throws, or answers with a status and a body. A body of a success is a payment
-- or does not parse; that of an error has a message and a code, or does not parse.
pub data Fetched : Type 0 where
  thrown : (message : Text) → Fetched
  success : Option GatewayPayment → (parse_error : Text) → Fetched
  failure : (status : ℕ) → Option (Option Text × Option Text) → Fetched

-- What `new URL(configured)` reads: the parser is an argument.
pub record Url : Type 0 where
  pub protocol : Text
  pub username : Text
  pub password : Text
  pub search : Text
  pub hash : Text
  pub href : Text

abbrev is_http : Url → Bool
is_http u = u.protocol === codes "http:" || u.protocol === codes "https:"

unfoldable pub get_gateway_url : (Text → Option Url) → Option Text → Option Text
unfolding strip_slashes ◌===◌
get_gateway_url parse none = none
get_gateway_url parse (some configured) =
    if truthy configured
    then elim (parse configured) [
      | none ↦ none
      | some u ↦
          if not (is_http u) || truthy u.username || truthy u.password
          then none
          else some (strip_slashes u.href)
    ]
    else none

abbrev pub missing_credentials_code : Text
missing_credentials_code = codes "missing_provider_credentials"

-- `/credentials missing/i.test(message)`
abbrev says_missing : Text → Bool
says_missing message = includes (to_lower message) (codes "credentials missing")

abbrev gateway_error : ℕ → Text
gateway_error status = codes "Gateway error (" ++ show status ++ codes ")"

unfoldable pub parse_gateway_error : ℕ → Option (Option Text × Option Text) → Text × Option Text
unfolding includes to_lower show
parse_gateway_error status none = (gateway_error status, none)
parse_gateway_error status (some (message, code)) =
    let text = or_text message (gateway_error status) in
    (text, if not (present code) && says_missing text then some missing_credentials_code else code)

unfoldable pub forward_payment_to_rust_gateway : Option Text → Fetched → GatewayResult
unfolding parse_gateway_error includes to_lower ◌===◌
forward_payment_to_rust_gateway none _ =
    refused 503 (codes "Rust gateway is not configured") (some (codes "gateway_unavailable"))
forward_payment_to_rust_gateway (some url) (thrown message) =
    refused 502 (codes "Could not reach Rust gateway: " ++ message)
      (some (codes "gateway_unreachable"))
forward_payment_to_rust_gateway (some url) (success none message) =
    refused 502 (codes "Could not reach Rust gateway: " ++ message)
      (some (codes "gateway_unreachable"))
forward_payment_to_rust_gateway (some url) (success (some payment) _) = ok payment
forward_payment_to_rust_gateway (some url) (failure status body) =
    let (error, code) = parse_gateway_error status body in
    let normalized =
      if is_text code (codes "validation_error") && says_missing error
      then some missing_credentials_code
      else code in
    refused (if is_text normalized missing_credentials_code then 422 else status) error normalized

unfoldable pub get_payment_from_rust_gateway : Option Text → Fetched → GatewayResult
unfolding parse_gateway_error
get_payment_from_rust_gateway none _ =
    refused 503 (codes "Rust gateway is not configured") (some (codes "gateway_unavailable"))
get_payment_from_rust_gateway (some url) (thrown message) =
    refused 502 (codes "Could not reach Rust gateway: " ++ message)
      (some (codes "gateway_unreachable"))
get_payment_from_rust_gateway (some url) (success none message) =
    refused 502 (codes "Could not reach Rust gateway: " ++ message)
      (some (codes "gateway_unreachable"))
get_payment_from_rust_gateway (some url) (success (some payment) _) = ok payment
get_payment_from_rust_gateway (some url) (failure status body) =
    let (error, code) = parse_gateway_error status body in refused status error code

-- `code !== "gateway_unreachable" && code !== "gateway_unavailable"`, negated.
unfoldable pub is_unreachable : Option Text → Bool
unfolding ◌===◌
is_unreachable code =
    is_text code (codes "gateway_unreachable") || is_text code (codes "gateway_unavailable")
