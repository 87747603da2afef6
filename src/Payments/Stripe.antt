-- ===== src/Payments/Stripe.antt =====
-- `createStripeCheckoutSession` of apps/web/lib/stripe-rail.ts, and the client it exports.
use openwrapper.Prelude.{[], ◌∷◌, ℕ, Option, none, some, List, if◌then◌else◌}
use openwrapper.Js.Text.{◌===◌, Text, codes, present, ◌or◌, or_text, to_lower}
use openwrapper.Payments.Api.{Env, StripeParams, StripeOutcome, thrown}

-- `CreateStripePaymentParams`
pub record StripePayment : Type 0 where
  pub amount_minor_units : ℕ
  pub currency : Text
  pub description : Option Text
  pub customer_email : Option Text
  pub success_url : Option Text
  pub cancel_url : Option Text
  pub idempotency_key : Text
  pub metadata : List (Text × Text)

-- The line item, the two URLs and the options of the request.
abbrev stripe_params : StripePayment → StripeParams
stripe_params p = record {
  amount_minor_units = p.amount_minor_units;
  currency = to_lower p.currency;
  description = some (or_text p.description (codes "OpenWrapper Payment"));
  customer_email = p.customer_email;
  success_url =
      or_text p.success_url
        (codes "https://example.com/payment/success?session_id={CHECKOUT_SESSION_ID}");
  cancel_url = or_text p.cancel_url (codes "https://example.com/payment/cancel");
  idempotency_key = p.idempotency_key;
  metadata = p.metadata;
}

abbrev with_client : Env → Option Text → StripePayment → StripeOutcome
with_client env none p = thrown (
    codes
      "Stripe credentials missing. Provide X-Stripe-Secret-Key header or configure STRIPE_SECRET_KEY.")
with_client env (some key) p = env.stripe_create key (stripe_params p)

-- `getStripeClient` throws without a key; then the session is created.
unfoldable pub create_stripe_checkout_session : Env → StripePayment → Option Text → StripeOutcome
unfolding to_lower
create_stripe_checkout_session env p override =
    let key = override or env.vars (codes "STRIPE_SECRET_KEY") in
    with_client env (if present key then key else none) p

-- What reading a property of the exported `stripe` gives: the webhooks of a client made for the occasion,
-- the property of the one client, or an exception. A client is its secret key.
pub data StripeAccess : Type 0 where
  webhooks_of : (key : Text) → StripeAccess
  property_of : (key : Text) → StripeAccess
  no_credentials : StripeAccess

abbrev new_instance : Option Text → StripeAccess × Option Text
new_instance none = (no_credentials, none)
new_instance (some []) = (no_credentials, none)
new_instance (some (c ∷ key)) = (property_of (c ∷ key), some (c ∷ key))

abbrev of_instance : (Text → Option Text) → Option Text → StripeAccess × Option Text
of_instance vars (some key) = (property_of key, some key)
of_instance vars none = new_instance (vars (codes "STRIPE_SECRET_KEY"))

-- `stripe[prop]`, with `_stripeInstance` before and after.
unfoldable pub stripe_get : (Text → Option Text) → Text → Option Text → StripeAccess × Option Text
unfolding ◌===◌
stripe_get vars prop instance_key =
    if prop === codes "webhooks"
    then (
      webhooks_of (or_text (vars (codes "STRIPE_SECRET_KEY")) (codes "whsec_bootstrap")),
      instance_key,
    )
    else of_instance vars instance_key
