-- ===== src/Payments/Create/Route.antt =====
-- The third stage of `POST`: each provider's branch, the gateway first and the web service's own
-- fallback second.
use openwrapper.Prelude.{
  ℕ, ◌+◌, ◌-◌, ◌*◌, ◌%◌, ◌^◌, Bool, true, false, not, ◌&&◌, ◌||◌, Option, none, some, [], ◌∷◌, ◌++◌,
  ltb, ◌==◌, if◌then◌else◌, take,
}
use openwrapper.Js.Text.{
  Text, codes, ◌===◌, present, ◌or◌, or_text, or_default, starts_with, includes, strip_slashes,
}
use openwrapper.Js.Decimal.{show, pad_start}
use openwrapper.Js.Json.{Json, str, get}
use openwrapper.Store.Handler.{Handler, ◌>>=◌, ◌>>◌, pure}
use openwrapper.Payments.Api.{
  Env, Request, headers_of, ApiResponse, StripeOutcome, session, thrown, fail, log,
}
use openwrapper.Payments.Stripe.{create_stripe_checkout_session}
use openwrapper.Payments.Create.Admit.{Admitted, endpoint_of}
use openwrapper.Payments.Create.Gateway.{
  Routed, gateway_url, latency, asked, take_result, take_known_result, if_configured,
}

-- `(acc << 5) - acc + c | 0` on a 32-bit pattern.
abbrev hash_step : ℕ → ℕ → ℕ
hash_step acc c = (31 * acc + c) % 2 ^ 32

unfoldable pub hash_from : ℕ → Text → ℕ
hash_from acc [] = acc
hash_from acc (c ∷ s) = hash_from (hash_step acc c) s

-- `Math.abs` of the signed integer that the pattern stands for.
abbrev abs_32 : ℕ → ℕ
abs_32 u = if ltb u (2 ^ 31) then u else 2 ^ 32 - u

unfoldable pub kiosk_code : Text → Text
unfolding hash_from pad_start show
kiosk_code id = codes "929" ++ pad_start 6 (show (abs_32 (hash_from 0 id) % 1_000_000))

-- `body?.provider_credentials?.stripe_secret_key`, for a text; a value of another type is ignored
-- here.
abbrev text_json : Option Json → Option Text
text_json (some (str s)) = some s
text_json _ = none

abbrev get_in : Option Json → Text → Option Json
get_in none k = none
get_in (some v) k = get v k

unfoldable pub body_stripe_key : Json → Option Text
unfolding get
body_stripe_key raw =
    text_json (get_in (get raw (codes "provider_credentials")) (codes "stripe_secret_key"))

module _ (env : Env) (r : Request) (a : Admitted) where
  abbrev pub post_log : ℕ → Handler ApiResponse (Unit {0})
  post_log status = log env a.key (codes "POST") (endpoint_of a.version) status none none

  -- `pay_` and 24 random hex digits
  abbrev pub own_id : Text
  own_id = codes "pay_" ++ env.random_hex

  abbrev pub app_url : Text
  app_url = strip_slashes (
      or_text (env.vars (codes "NEXT_PUBLIC_APP_URL")) (
        or_text (env.vars (codes "OPENWRAPPER_PUBLIC_URL"))
          (codes "https://openwrapper.muejam.com")))

  abbrev return_url_param : Option Text → Text
  return_url_param url =
      if present url then codes "&return_url=" ++ env.encode_uri (or_default url []) else []

  -- The simulation of a Fawry or Paymob payment.
  unfoldable pub simulate : Routed
  unfolding kiosk_code strip_slashes ◌===◌
  simulate =
      if a.input.provider === codes "fawry"
      then record {
        payment_id = own_id;
        provider_reference = some (codes "fawry_sim_" ++ own_id);
        status = codes "pending";
        next_action_type = some (codes "pay_at_reference");
        next_action_payload = some (kiosk_code own_id);
        routing_latency_ms = latency env;
      }
      else record {
        payment_id = own_id;
        provider_reference = some (codes "paymob_sim_" ++ own_id);
        status = codes "pending";
        next_action_type = some (codes "redirect_to_url");
        next_action_payload = some (
            app_url
            ++ codes "/mock/pay/"
            ++ own_id
            ++ codes "?provider=paymob&method=cards"
            ++ return_url_param a.input.return_url);
        routing_latency_ms = latency env;
      }

  abbrev is_none : Option Text → Bool
  is_none none = true
  is_none (some _) = false

  abbrev pub fall_back :
      (local : Handler ApiResponse Routed) → Option Routed → Handler ApiResponse Routed
  fall_back local none = local
  fall_back local (some d) = pure d

  abbrev pub simulate_or_refuse : Handler ApiResponse Routed
  simulate_or_refuse =
      if not a.is_test && is_none (gateway_url env)
      then (do
        post_log 503
        fail 503 (codes "gateway_required") (
            codes "Provider \""
            ++ a.input.provider
            ++ codes
                "\" requires OPENWRAPPER_GATEWAY_URL. Paymob and Fawry payments are handled by the Rust gateway."))
      else pure simulate

  -- `if (provider === "paymob" || provider === "fawry")`
  unfoldable pub route_paymob_fawry : Handler ApiResponse Routed
  unfolding simulate
  route_paymob_fawry = do
    handled ← if_configured env r a (gateway_url env) (take_known_result env r a (asked env r a))
    fall_back simulate_or_refuse handled

  abbrev pub stripe_key : Option Text
  stripe_key = headers_of r (codes "x-stripe-secret-key") or body_stripe_key a.raw_json

  abbrev pub pending_redirect : Text → Text → Routed
  pending_redirect reference url = record {
    payment_id = own_id;
    provider_reference = some reference;
    status = codes "pending";
    next_action_type = some (codes "redirect_to_url");
    next_action_payload = some url;
    routing_latency_ms = latency env;
  }

  abbrev pub is_config_error : Text → Bool
  is_config_error message =
      includes message (codes "credentials missing") || includes message (codes "STRIPE")

  abbrev pub take_session : StripeOutcome → Handler ApiResponse Routed
  take_session (session id url) = pure (pending_redirect id (or_text url []))
  take_session (thrown message) =
      if is_config_error (or_text (some message) (codes "Provider error"))
      then (do
        post_log 422
        fail 422 (codes "missing_provider_credentials")
            (codes "Stripe credentials missing. Provide X-Stripe-Secret-Key header."))
      else (do
        post_log 502
        fail 502 (codes "provider_error") (codes "Stripe provider request failed."))

  -- A test payment without any Stripe key gets a session that leads nowhere.
  abbrev pub is_demo : Bool
  is_demo =
      a.is_test && not (present stripe_key) && not (present (env.vars (codes "STRIPE_SECRET_KEY")))

  abbrev pub demo_session : Routed
  demo_session =
      pending_redirect (codes "cs_test_" ++ own_id)
        (codes "https://checkout.stripe.com/c/pay/cs_test_" ++ own_id)

  abbrev pub stripe_answer : StripeOutcome
  stripe_answer =
      create_stripe_checkout_session env
        (record {
          amount_minor_units = a.amount_minor_units;
          currency = a.input.currency;
          description = some a.description;
          customer_email = a.customer_email;
          success_url = a.return_url;
          cancel_url = a.return_url;
          idempotency_key = a.idempotency_key;
          metadata = a.metadata;
        })
        (if present stripe_key then stripe_key else none)

  abbrev pub stripe_locally : Handler ApiResponse Routed
  stripe_locally = if is_demo then pure demo_session else take_session stripe_answer

  -- `else if (provider === "stripe")`
  unfoldable pub route_stripe : Handler ApiResponse Routed
  unfolding create_stripe_checkout_session includes body_stripe_key
  route_stripe = do
    handled ← if_configured env r a (gateway_url env) (take_result env r a (asked env r a))
    fall_back stripe_locally handled

  abbrev pub mock_payment : Routed
  mock_payment =
      if starts_with a.customer_phone (codes "+20") && not (present a.return_url)
      then record {
        payment_id = own_id;
        provider_reference = some (codes "mock_ref_" ++ own_id);
        status = codes "pending";
        next_action_type = some (codes "pay_at_reference");
        next_action_payload = some (codes "MOCK-" ++ take 8 own_id);
        routing_latency_ms = latency env;
      }
      else pending_redirect (codes "mock_ref_" ++ own_id) (
          strip_slashes (
            or_text (env.vars (codes "NEXT_PUBLIC_APP_URL"))
              (codes "https://openwrapper.muejam.com"))
          ++ codes "/mock/pay/"
          ++ own_id)

  abbrev pub mock_locally : Handler ApiResponse Routed
  mock_locally =
      if a.amount_minor_units % 100 == 99
      then (do
        post_log 402
        fail 402 (codes "card_declined") (codes "Simulated card decline (amount ends in 99)"))
      else if a.amount_minor_units % 100 == 88
      then (do
        post_log 504
        fail 504 (codes "timeout") (codes "Simulated network/provider timeout (amount ends in 88)"))
      else pure mock_payment

  -- `else if (provider === "mock")`
  unfoldable pub route_mock : Handler ApiResponse Routed
  unfolding starts_with strip_slashes
  route_mock = do
    handled ← if_configured env r a (gateway_url env) (take_result env r a (asked env r a))
    fall_back mock_locally handled

  -- The branches on the provider; the last is not reached, since the input names one of the four.
  unfoldable pub route : Handler ApiResponse Routed
  unfolding route_paymob_fawry route_stripe route_mock ◌===◌
  route =
      if a.input.provider === codes "paymob" || a.input.provider === codes "fawry"
      then route_paymob_fawry
      else if a.input.provider === codes "stripe"
      then route_stripe
      else if a.input.provider === codes "mock"
      then route_mock
      else (do
        post_log 422
        fail 422 (codes "unsupported_provider") (
            codes "Unsupported provider \""
            ++ a.input.provider
            ++ codes "\". Supported: paymob, fawry, stripe, mock."))
