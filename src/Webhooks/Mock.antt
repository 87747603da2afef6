-- ===== src/Webhooks/Mock.antt =====
-- apps/web/app/api/webhooks/mock/route.ts. The race against 800 ms bounds only the wait for the
-- database work, which goes on; so the work is done here whether or not it was waited for.
use openwrapper.Prelude.{
  ℕ, Bool, true, false, not, ◌||◌, Option, none, some, ◌++◌, [], drop, if◌then◌else◌,
}
use openwrapper.Js.Text.{
  Text, codes, ◌===◌, truthy, ◌or◌, or_text, or_default, starts_with, to_lower,
}
use openwrapper.Js.Json.{Json, str, get, ◌or_field◌, string_or_empty}
use openwrapper.Store.{World, PaymentRow, column_is}
use openwrapper.Store.Handler.{Handler, ◌>>=◌, ◌>>◌, pure, modify}
use openwrapper.Access.BodyReader.{read_limited_text_body}
use openwrapper.Ledger.Status.{is_terminal}
use openwrapper.Ledger.Persist.{has_id}
use openwrapper.Webhooks.Shared.{
  HookEnv, HookRequest, HookReply, received, reject, max_hook_body, require_body, require_json,
  require_object, apply_found, id_of, record_event,
}

abbrev default_mock_secret : Text
default_mock_secret = codes "mock_default_secret_key_for_testing_purposes"

pub record MockEvent : Type 0 where
  pub event_id : Text
  pub provider_ref : Text
  pub merchant_ref : Text
  pub explicit_payment_id : Text
  pub status : Text

unfoldable pub mock_status : Text → Text
unfolding ◌===◌
mock_status raw =
    if raw === codes "succeeded" || raw === codes "success" || raw === codes "paid"
    then codes "succeeded"
    else if raw === codes "pending"
    then codes "pending"
    else codes "failed"

unfoldable pub read_event : Text → Json → MockEvent
unfolding get string_or_empty to_lower mock_status
read_event uuid p = record {
  event_id = string_or_empty (
      get p (codes "event_id")
      or_field get p (codes "eventId")
      or_field some (str (codes "mock_evt_" ++ uuid)));
  provider_ref =
      string_or_empty
        (get p (codes "provider_reference") or_field get p (codes "providerReference"));
  merchant_ref =
      string_or_empty
        (get p (codes "merchant_reference") or_field get p (codes "merchantReference"));
  explicit_payment_id =
      string_or_empty
        (get p (codes "payment_id") or_field get p (codes "paymentId") or_field get p (codes "id"));
  status =
      mock_status (
        to_lower
          (string_or_empty (get p (codes "status") or_field some (str (codes "succeeded")))));
}

-- The references that the second lookup goes by.
abbrev matches : MockEvent → PaymentRow → Bool
matches e r =
    if truthy e.merchant_ref
    then column_is r.merchant_reference e.merchant_ref
    else column_is r.provider_reference e.provider_ref

abbrev pub set_payment : MockEvent → ℕ → PaymentRow → PaymentRow → PaymentRow
set_payment e now found r = record r {
  status = e.status;
  provider_reference =
      if truthy e.provider_ref then some e.provider_ref else found.provider_reference;
  next_action_type = if is_terminal e.status then none else found.next_action_type;
  next_action_payload = if is_terminal e.status then none else found.next_action_payload;
  updated_at = now;
}

abbrev pub or_else : Option PaymentRow → Option PaymentRow → Option PaymentRow
or_else none b = b
or_else (some r) b = some r

module _ (env : HookEnv) where
  abbrev pub given_signature : HookRequest → Text
  given_signature r =
      or_default (r.headers (codes "x-mock-signature") or r.headers (codes "x-signature")) []

  abbrev clean : Text → Text
  clean s = if starts_with s (codes "sha256=") then drop 7 s else s

  -- Only a signature that is given is verified.
  unfoldable pub is_signed_or_bare : HookRequest → Text → Bool
  unfolding starts_with ◌===◌
  is_signed_or_bare r text =
      not (truthy (given_signature r))
      || env.hmac_sha256
          (or_text (env.vars (codes "OPENWRAPPER_MOCK_HMAC_SECRET")) default_mock_secret) text
        === clean (given_signature r)

  abbrev pub require_that : Bool → ℕ → Text → Handler HookReply (Unit {0})
  require_that true status message = pure tt
  require_that false status message = reject status message

  -- The checks in front of the database work.
  unfoldable pub verify_mock : HookRequest → Handler HookReply MockEvent
  unfolding read_limited_text_body is_signed_or_bare
  verify_mock r = do
    text ← require_body (read_limited_text_body env.decode max_hook_body r.body)
    parsed ← require_json (env.parse_json text)
    require_that (is_signed_or_bare r text) 401 (codes "Invalid signature")
    payload ← require_object parsed
    pure (read_event env.uuid payload)

  abbrev pub by_reference : MockEvent → World → Option PaymentRow
  by_reference e w =
      if truthy e.merchant_ref || truthy e.provider_ref
      then env.sql.select_one (matches e) w.payments
      else none

  abbrev pub find_mock : MockEvent → World → Option PaymentRow
  find_mock e w =
      or_else
        (if truthy e.explicit_payment_id
          then env.sql.select_one (has_id e.explicit_payment_id) w.payments
          else none)
        (by_reference e w)

  unfoldable pub apply_mock : MockEvent → World → World
  unfolding record_event is_terminal ◌===◌
  apply_mock e w =
      let found = find_mock e w in
      record w {
        payments = apply_found found e.status (set_payment e env.now) w.payments;
        webhook_events =
            record_event e.event_id (codes "mock") (id_of found) env.now w.webhook_events;
      }

  -- `POST`: an error of the database is swallowed.
  unfoldable pub mock_webhook : HookRequest → Handler HookReply HookReply
  unfolding verify_mock apply_mock
  mock_webhook r = do
    e ← verify_mock r
    modify (λ w. if env.db_fails then w else apply_mock e w)
    pure (record { status = 200; body = received e.status })
