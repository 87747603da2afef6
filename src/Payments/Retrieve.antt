-- ===== src/Payments/Retrieve.antt =====
-- `GET` of apps/web/app/api/[version]/payments/[id]/route.ts: a payment is read, brought up to date from
-- the gateway or from Stripe while it is open, and shown. What Stripe says of a session is an argument,
-- none where the call throws.
pub mod Isolation
pub mod Reads
pub mod Owner
pub mod Sessions
pub mod Overtaken
pub mod SessionTests
pub mod Tests
use openwrapper.Prelude.{
  [], ℕ, Bool, true, false, not, ◌&&◌, ◌||◌, Option, none, some, ◌++◌, leb, ◌==◌, if◌then◌else◌,
  every, length,
}
use openwrapper.Js.Text.{
  Text, codes, ◌===◌, present, ◌or◌, is_text, starts_with, or_text, or_default,
}
use openwrapper.Store.{World, PaymentRow, update_where, column_is}
use openwrapper.Store.Handler.{Handler, next, raise, ◌>>=◌, ◌>>◌, pure, gets, throw}
use openwrapper.Access.Version.{validate_api_version}
use openwrapper.Access.Authenticator.{AuthKey}
use openwrapper.Gateway.Headers.{build_forward_headers}
use openwrapper.Gateway.Bridge.{
  GatewayPayment, GatewayResult, ok, refused, get_payment_from_rust_gateway,
}
use openwrapper.Ledger.Persist.{has_id}
use openwrapper.Ledger.Response.{next_action_of, shown}
use openwrapper.Ledger.Status.{is_terminal}
use openwrapper.Payments.Api.{
  Env, Request, headers_of, ApiResponse, PaymentDetails, details, extract_api_token, fail, log,
}
use openwrapper.Payments.Create.Admit.{checked_version, require_key, authenticate}
use openwrapper.Payments.Create.Gateway.{gateway_url, action_type, action_payload}

-- The two fields of a checkout session that are read.
pub record StripeSession : Type 0 where
  pub payment_status : Text
  pub status : Text

-- `/^[A-Za-z0-9_-]{1,128}$/`
abbrev is_id_char : ℕ → Bool
is_id_char c =
    (leb b'A' c && leb c b'Z')
    || (leb b'a' c && leb c b'z')
    || (leb b'0' c && leb c b'9')
    || c == b'_'
    || c == b'-'

unfoldable pub is_payment_id : Text → Bool
unfolding every
is_payment_id id = leb 1 (length id) && leb (length id) 128 && every is_id_char id

abbrev pub owned_by : Text → PaymentRow → Bool
owned_by user r = column_is r.user_id user

abbrev pub has_reference : Text → PaymentRow → Bool
has_reference id r = column_is r.merchant_reference id || column_is r.provider_reference id

-- The four variables that the handler brings up to date.
pub record Current : Type 0 where
  pub status : Text
  pub provider_reference : Option Text
  pub next_action_type : Option Text
  pub next_action_payload : Option Text

abbrev pub current_of : PaymentRow → Current
current_of p = record {
  status = p.status;
  provider_reference = p.provider_reference;
  next_action_type = p.next_action_type;
  next_action_payload = p.next_action_payload;
}

abbrev or_keep : Option Text → Option Text → Option Text
or_keep a b = if present a then a else b

-- What the gateway's answer makes of them.
abbrev pub merged : PaymentRow → GatewayPayment → Current
merged p d = record {
  status = d.status;
  provider_reference = or_keep d.provider_reference p.provider_reference;
  next_action_type =
      if is_terminal d.status then none else or_keep (action_type d.next_action) p.next_action_type;
  next_action_payload =
      if is_terminal d.status
      then none
      else or_keep (action_payload d.next_action) p.next_action_payload;
}

abbrev pub same_text : Option Text → Option Text → Bool
same_text none none = true
same_text (some a) (some b) = a === b
same_text _ _ = false

-- `.set({ status, providerReference, nextActionType, nextActionPayload, updatedAt })`
abbrev pub write_current : ℕ → Current → PaymentRow → PaymentRow
write_current now c r = record r {
  status = c.status;
  provider_reference = c.provider_reference;
  next_action_type = c.next_action_type;
  next_action_payload = c.next_action_payload;
  updated_at = now;
}

abbrev pub write_resolved : ℕ → Text → PaymentRow → PaymentRow
write_resolved now status r = record r {
  status = status;
  next_action_type = none;
  next_action_payload = none;
  updated_at = now;
}

abbrev pub is_known_provider : Text → Bool
is_known_provider p =
    p === codes "paymob" || p === codes "fawry" || p === codes "stripe" || p === codes "mock"

-- The condition on which a payment is brought up to date.
unfoldable pub is_open : PaymentRow → Bool
unfolding ◌===◌
is_open p =
    is_known_provider p.provider && (p.status === codes "unknown" || p.status === codes "pending")

-- What the session says, where it says anything.
unfoldable pub resolved_status : StripeSession → Option Text
unfolding ◌===◌
resolved_status s =
    if s.payment_status === codes "paid" || s.status === codes "complete"
    then some (codes "succeeded")
    else if s.status === codes "expired"
    then some (codes "failed")
    else none

abbrev pub set_payments : Text → (PaymentRow → PaymentRow) → World → World
set_payments id set w = record w { payments = update_where (has_id id) set w.payments }

abbrev pub details_of : PaymentRow → Current → PaymentDetails
details_of p c = record {
  payment_id = p.id;
  provider = p.provider;
  provider_reference = c.provider_reference;
  status = c.status;
  amount_minor_units = p.amount_minor_units;
  currency = p.currency;
  merchant_reference = p.merchant_reference;
  description = p.description;
  customer_phone = p.customer_phone;
  customer_email = p.customer_email;
  customer_name = p.customer_name;
  next_action =
      next_action_of c.next_action_type c.next_action_payload
        (or_text p.description (codes "Pay reference code: " ++ shown c.next_action_payload));
  created_at = p.created_at;
  updated_at = p.updated_at;
}

module _ (env : Env) (retrieve_session : Text → Text → Option StripeSession) where
  -- By id, or else by the merchant's or the provider's reference; always of the caller.
  abbrev pub by_id : Text → Text → World → Option PaymentRow
  by_id user id w = env.sql.select_one (λ r. has_id id r && owned_by user r) w.payments

  abbrev pub by_reference : Text → Text → World → Option PaymentRow
  by_reference user id w =
      env.sql.select_one (λ r. has_reference id r && owned_by user r) w.payments

  abbrev pub first_of_two : Option PaymentRow → Option PaymentRow → Option PaymentRow
  first_of_two none b = b
  first_of_two (some p) b = some p

  abbrev pub find_payment : Text → Text → World → Option PaymentRow
  find_payment user id w = first_of_two (by_id user id w) (by_reference user id w)

  abbrev pub require_id : Bool → Handler ApiResponse (Unit {0})
  require_id true = pure tt
  require_id false = fail 400 (codes "invalid_request") (codes "Invalid payment ID.")

  abbrev pub require_payment :
      AuthKey → Text → Text → Option PaymentRow → Handler ApiResponse PaymentRow
  require_payment key endpoint id (some p) = pure p
  require_payment key endpoint id none = do
    log env key (codes "GET") endpoint 404 none none
    fail 404 (codes "not_found") (codes "Payment with id '" ++ id ++ codes "' not found.")

  -- `getPaymentFromRustGateway(id, token, headers, version)`
  abbrev pub asked : Request → Text → Text → GatewayResult
  asked r version id = get_payment_from_rust_gateway (gateway_url env) (
      env.gateway_get (codes "/" ++ version ++ codes "/payments/" ++ env.encode_uri id)
        (build_forward_headers env.vars (extract_api_token (headers_of r)) r.entries))

  abbrev pub is_changed : PaymentRow → Current → Bool
  is_changed p c =
      not (c.status === p.status) || not (same_text c.provider_reference p.provider_reference)

  -- `if (gatewayResult.ok) { … }`
  unfoldable pub take_gateway : PaymentRow → GatewayResult → Handler ApiResponse Current
  unfolding is_terminal ◌===◌
  take_gateway p (refused status error code) w = next (current_of p) w
  take_gateway p (ok d) w = next (merged p d) (
      if is_changed p (merged p d)
      then set_payments p.id (write_current env.now (merged p d)) w
      else w)

  abbrev pub stripe_key : Request → Option Text
  stripe_key r =
      headers_of r (codes "x-stripe-secret-key")
      or headers_of r (codes "stripe-secret-key")
      or env.vars (codes "STRIPE_SECRET_KEY")

  abbrev pub asks_stripe : Request → PaymentRow → Current → Bool
  asks_stripe r p c =
      c.status === codes "pending"
      && p.provider === codes "stripe"
      && starts_with (or_default c.provider_reference []) (codes "cs_")
      && present (stripe_key r)

  abbrev pub settled : PaymentRow → Current → Option Text → Handler ApiResponse Current
  settled p c none w = next c w
  settled p c (some status) w =
      next (record c { status = status; next_action_type = none; next_action_payload = none })
        (set_payments p.id (write_resolved env.now status) w)

  abbrev pub session_status : Option StripeSession → Option Text
  session_status none = none
  session_status (some s) = resolved_status s

  -- The inquiry at Stripe; an exception of it is swallowed.
  unfoldable pub take_stripe : Request → PaymentRow → Current → Handler ApiResponse Current
  unfolding resolved_status starts_with ◌===◌
  take_stripe r p c =
      if asks_stripe r p c
      then settled p c (
          session_status
            (retrieve_session (or_default (stripe_key r) []) (or_default c.provider_reference [])))
      else pure c

  -- The part under the condition `is_open`.
  unfoldable pub refresh : Request → Text → Text → PaymentRow → Handler ApiResponse Current
  unfolding is_open take_gateway take_stripe
  refresh r version id p =
      if is_open p
      then take_gateway p (asked r version id) >>= take_stripe r p
      else pure (current_of p)

  -- The first statement on the payments fails, or not.
  abbrev pub read_payment : AuthKey → Text → Handler ApiResponse (Option PaymentRow)
  read_payment key id = if env.lookup_fails then throw else gets (find_payment key.user_id id)

  -- `GET`; an exception is answered by the framework, with status 500.
  unfoldable pub retrieve : Text → Request → Handler ApiResponse ApiResponse
  unfolding validate_api_version is_payment_id refresh
  retrieve id r = do
    version ← checked_version env (validate_api_version r.version)
    known ← gets (authenticate env r)
    key ← require_key env (codes "Missing or invalid API key.") known
    require_id (is_payment_id id)
    let endpoint = codes "/api/" ++ version ++ codes "/payments/:id"
    found ← read_payment key id
    p ← require_payment key endpoint id found
    c ← refresh r version id p
    log env key (codes "GET") endpoint 200 none none
    pure (record { status = 200; body = details (details_of p c) })
