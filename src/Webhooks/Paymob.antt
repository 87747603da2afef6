-- ===== src/Webhooks/Paymob.antt =====
-- apps/web/app/api/webhooks/paymob/route.ts
use openwrapper.Prelude.{
  ℕ, Bool, true, false, not, ◌&&◌, ◌||◌, Option, none, some, ◌++◌, [], if◌then◌else◌,
}
use openwrapper.Js.Text.{Text, codes, ◌===◌, truthy, present, ◌or◌, or_default}
use openwrapper.Js.Json.{Json, str, bool, get, ◌or_field◌, string_or_empty}
use openwrapper.Store.{World, PaymentRow, column_is}
use openwrapper.Store.Handler.{Handler, raise, ◌>>=◌, ◌>>◌, pure, modify}
use openwrapper.Access.BodyReader.{read_limited_text_body}
use openwrapper.Signatures.Rails.{
  PaymobConfig, get_paymob_config, verify_paymob_hmac, transaction_of,
}
use openwrapper.Webhooks.Shared.{
  HookEnv, HookRequest, HookReply, received, reject, max_hook_body, require_body, require_json,
  require_object, too_long, apply_found, id_of, record_event,
}

-- `v === true || v === "true"`
abbrev is_true : Option Json → Bool
is_true (some (bool b)) = b
is_true (some (str s)) = s === codes "true"
is_true _ = false

pub record PaymobEvent : Type 0 where
  pub transaction_id : Text
  pub special_reference : Text
  pub is_pending : Bool
  pub success : Bool

unfoldable pub read_event : Json → PaymobEvent
unfolding get string_or_empty transaction_of ◌===◌
read_event payload =
    let o = transaction_of payload in
    record {
      transaction_id = string_or_empty (get o (codes "id"));
      special_reference =
          string_or_empty
            (get o (codes "special_reference") or_field get o (codes "merchant_order_id"));
      is_pending = is_true (get o (codes "pending"));
      success = is_true (get o (codes "success"));
    }

unfoldable pub paymob_status : PaymobEvent → Text
paymob_status e =
    if e.is_pending
    then codes "pending"
    else if e.success
    then codes "succeeded"
    else codes "failed"

abbrev text_json : Option Json → Option Text
text_json (some (str s)) = some s
text_json _ = none

abbrev matches : Text → PaymentRow → Bool
matches reference r = r.provider === codes "paymob" && column_is r.merchant_reference reference

abbrev pub set_payment : Text → Text → ℕ → PaymentRow → PaymentRow → PaymentRow
set_payment status reference now found r = record r {
  status = status;
  provider_reference = if truthy reference then some reference else found.provider_reference;
  updated_at = now;
}

module _ (env : HookEnv) where
  abbrev pub require_config : Option PaymobConfig → Handler HookReply PaymobConfig
  require_config (some c) = pure c
  require_config none = reject 503 (codes "Paymob webhook verification is not configured")

  abbrev pub require_that : Bool → ℕ → Text → Handler HookReply (Unit {0})
  require_that true status message = pure tt
  require_that false status message = reject status message

  -- `queryHmac || payload.hmac || header`; a `payload.hmac` that is no text counts as absent.
  abbrev pub given_hmac : HookRequest → Json → Option Text
  given_hmac r payload =
      r.query_hmac or text_json (get payload (codes "hmac")) or r.headers (codes "x-paymob-hmac")

  -- The checks in front of the database work.
  unfoldable pub verify_paymob : HookRequest → Handler HookReply PaymobEvent
  unfolding read_limited_text_body get
  verify_paymob r = do
    text ← require_body (read_limited_text_body env.decode max_hook_body r.body)
    parsed ← require_json (env.parse_json text)
    (if present r.query_hmac then pure parsed else require_object parsed)
    config ← require_config (get_paymob_config env.vars)
    payload ← require_object parsed
    require_that (present (given_hmac r payload)) 401 (codes "Missing HMAC signature")
    require_that
        (verify_paymob_hmac env.hmac_sha512 payload (or_default (given_hmac r payload) [])
          config.hmac_secret)
        401 (codes "Invalid HMAC signature")
    let e = read_event payload
    require_that (not (too_long e.transaction_id || too_long e.special_reference)) 400
        (codes "Invalid webhook identifiers")
    pure e

  abbrev find_paymob : PaymobEvent → World → Option PaymentRow
  find_paymob e w =
      if truthy e.special_reference
      then env.sql.select_one (matches e.special_reference) w.payments
      else none

  unfoldable pub apply_paymob : PaymobEvent → World → World
  unfolding paymob_status record_event ◌===◌
  apply_paymob e w =
      let status = paymob_status e in
      let found = find_paymob e w in
      record w {
        payments =
            apply_found found status (set_payment status e.transaction_id env.now) w.payments;
        webhook_events =
            record_event
              (codes "pm_evt_" ++ (if truthy e.transaction_id then e.transaction_id else env.uuid))
              (codes "paymob") (id_of found) env.now w.webhook_events;
      }

  -- `POST`
  unfoldable pub paymob_webhook : HookRequest → Handler HookReply HookReply
  unfolding verify_paymob apply_paymob
  paymob_webhook r = do
    e ← verify_paymob r
    (if env.db_fails then (λ w. raise w) else modify (apply_paymob e))
    pure (record { status = 200; body = received (paymob_status e) })
