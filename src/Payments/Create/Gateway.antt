-- ===== src/Payments/Create/Gateway.antt =====
-- The part of the third stage of `POST` that the providers share: the Rust gateway is asked first.
use openwrapper.Prelude.{ℕ, Bool, true, false, not, ◌&&◌, Option, none, some, ◌++◌, if◌then◌else◌}
use openwrapper.Js.Text.{Text, codes, ◌===◌, present, ◌or◌, or_text}
use openwrapper.Store.Handler.{Handler, ◌>>◌, pure}
use openwrapper.Gateway.Headers.{build_forward_headers}
use openwrapper.Gateway.Bridge.{
  GatewayNextAction, GatewayPayment, GatewayResult, ok, refused, get_gateway_url,
  forward_payment_to_rust_gateway, is_unreachable,
}
use openwrapper.Payments.Api.{Env, Request, ApiResponse, fail, log}
use openwrapper.Payments.Create.Admit.{Admitted, endpoint_of}

-- The variables that a provider's branch sets.
pub record Routed : Type 0 where
  pub payment_id : Text
  pub provider_reference : Option Text
  pub status : Text
  pub next_action_type : Option Text
  pub next_action_payload : Option Text
  pub routing_latency_ms : Option ℕ

abbrev pub gateway_url : Env → Option Text
gateway_url env = get_gateway_url env.parse_url (env.vars (codes "OPENWRAPPER_GATEWAY_URL"))

-- `routingLatencyMs` is measured where the gateway was asked.
abbrev pub latency : Env → Option ℕ
latency env = elim (gateway_url env) [ none ↦ none | some _ ↦ some env.routing_ms ]

-- `next_action?.type || null` and `next_action?.url || next_action?.reference || null`
abbrev non_empty : Option Text → Option Text
non_empty o = if present o then o else none

abbrev pub action_type : Option GatewayNextAction → Option Text
action_type none = none
action_type (some n) = non_empty (some n.type)

abbrev pub action_payload : Option GatewayNextAction → Option Text
action_payload none = none
action_payload (some n) = non_empty (n.url or n.reference)

abbrev pub routed_of : Env → GatewayPayment → Routed
routed_of env d = record {
  payment_id = d.payment_id;
  provider_reference = d.provider_reference;
  status = d.status;
  next_action_type = action_type d.next_action;
  next_action_payload = action_payload d.next_action;
  routing_latency_ms = latency env;
}

module _ (env : Env) (r : Request) (a : Admitted) where
  -- The result of `forwardPaymentToRustGateway`.
  abbrev pub asked : GatewayResult
  asked = forward_payment_to_rust_gateway (gateway_url env) (
      env.gateway_create a.canonical_payload a.idempotency_key
        (build_forward_headers env.vars a.token r.entries))

  -- An error that is not the gateway's absence is passed on.
  abbrev pub refuse : ℕ → Text → Option Text → Handler ApiResponse (Option Routed)
  refuse status error code = if is_unreachable code then pure none else do
    log env a.key (codes "POST") (endpoint_of a.version) status (latency env) none
    fail status (or_text code (codes "gateway_error")) error

  -- Stripe and mock: what the gateway gives is taken.
  abbrev pub take_result : GatewayResult → Handler ApiResponse (Option Routed)
  take_result (ok d) = pure (some (routed_of env d))
  take_result (refused status error code) = refuse status error code

  abbrev is_missing : Option GatewayNextAction → Bool
  is_missing none = true
  is_missing (some _) = false

  -- A gateway payment that names nothing to pay by.
  abbrev pub is_blank : GatewayPayment → Bool
  is_blank d =
      d.status === codes "unknown" && not (present d.provider_reference) && is_missing d.next_action

  -- Paymob and Fawry: a payment with an unknown outcome and nothing to pay by is a provider error,
  -- but in test mode it falls through to the simulation.
  abbrev pub take_known_result : GatewayResult → Handler ApiResponse (Option Routed)
  take_known_result (ok d) =
      if is_blank d
      then if a.is_test then pure none else (do
        log env a.key (codes "POST") (endpoint_of a.version) 502 (latency env) none
        fail 502 (codes "provider_error") (
            codes "Payment intention could not be created by provider \""
            ++ a.input.provider
            ++ codes "\". Please check provider integration credentials."))
      else pure (some (routed_of env d))
  take_known_result (refused status error code) = refuse status error code

  -- `if (getGatewayUrl()) { … }`
  abbrev pub if_configured :
      Option Text → Handler ApiResponse (Option Routed) → Handler ApiResponse (Option Routed)
  if_configured none m = pure none
  if_configured (some _) m = m
