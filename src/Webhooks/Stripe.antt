-- ===== src/Webhooks/Stripe.antt =====
-- apps/web/app/api/webhooks/stripe/route.ts
use openwrapper.Prelude.{
  ℕ, Bool, true, false, not, ◌&&◌, ◌||◌, Option, none, some, ◌++◌, List, [], ◌∷◌, ltb,
  if◌then◌else◌, length,
}
use openwrapper.Js.Text.{Text, codes, ◌===◌, truthy, present, or_default, ends_with, member}
use openwrapper.Js.Decimal.{show}
use openwrapper.Store.{World, PaymentRow, column_is}
use openwrapper.Store.Handler.{Handler, ◌>>=◌, ◌>>◌, pure, modify}
use openwrapper.Access.BodyReader.{read_limited_text_body}
use openwrapper.Webhooks.Shared.{
  HookEnv, HookRequest, HookReply, StripeEvent, received_event, reject, max_hook_body, require_body,
  apply_found, id_of, record_event,
}

abbrev checkout_events : List Text
checkout_events =
    codes "checkout.session.completed"
    ∷ codes "checkout.session.async_payment_succeeded"
    ∷ codes "checkout.session.async_payment_failed"
    ∷ codes "checkout.session.expired"
    ∷ []

unfoldable pub stripe_status : StripeEvent → Text
unfolding ends_with ◌===◌
stripe_status e =
    if e.payment_status === codes "paid"
    then codes "succeeded"
    else if ends_with e.type (codes "failed") || ends_with e.type (codes "expired")
    then codes "failed"
    else codes "pending"

abbrev set_payment : Text → ℕ → PaymentRow → PaymentRow → PaymentRow
set_payment status now found r = record r { status = status; updated_at = now }

module _ (env : HookEnv) where
  abbrev require_that : Bool → ℕ → Text → Handler HookReply (Unit {0})
  require_that true status message = pure tt
  require_that false status message = reject status message

  abbrev require_event : Option StripeEvent → Handler HookReply StripeEvent
  require_event (some e) = pure e
  require_event none = reject 401 (codes "Invalid Stripe signature")

  -- The checks in front of the database work.
  unfoldable pub verify_stripe : HookRequest → Handler HookReply StripeEvent
  unfolding read_limited_text_body
  verify_stripe r = do
    text ← require_body (read_limited_text_body env.decode max_hook_body r.body)
    require_that (not (ltb (length text) 2)) 400 (codes "Empty request body")
    require_that (present (env.vars (codes "STRIPE_WEBHOOK_SECRET"))) 503
        (codes "Stripe webhook verification is not configured")
    require_that (present (r.headers (codes "stripe-signature"))) 401
        (codes "Missing stripe-signature header")
    require_event (
        env.construct_event text (or_default (r.headers (codes "stripe-signature")) [])
          (or_default (env.vars (codes "STRIPE_WEBHOOK_SECRET")) []))

  -- The session of a checkout event; one without an id is no session.
  abbrev session_of : StripeEvent → Option Text
  session_of e =
      if member checkout_events e.type && present e.session_id then e.session_id else none

  abbrev pub find_session : Option Text → World → Option PaymentRow
  find_session none w = none
  find_session (some id) w =
      env.sql.select_one (λ (r : PaymentRow). column_is r.provider_reference id) w.payments

  abbrev event_id_of : StripeEvent → Text
  event_id_of e = if truthy e.id then e.id else codes "evt_" ++ show env.now

  unfoldable pub apply_stripe : StripeEvent → World → World
  unfolding stripe_status record_event member ◌===◌ show
  apply_stripe e w =
      let status = stripe_status e in
      let found = find_session (session_of e) w in
      record w {
        payments = apply_found found status (set_payment status env.now) w.payments;
        webhook_events =
            record_event (event_id_of e) (codes "stripe") (id_of found) env.now w.webhook_events;
      }

  -- `POST`: an error of the database is answered 500.
  unfoldable pub stripe_webhook : HookRequest → Handler HookReply HookReply
  unfolding verify_stripe apply_stripe
  stripe_webhook r = do
    e ← verify_stripe r
    (if env.db_fails
        then reject 500 (codes "Webhook processing error")
        else modify (apply_stripe e))
    pure (record { status = 200; body = received_event (event_id_of e) })
