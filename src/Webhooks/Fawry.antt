-- ===== src/Webhooks/Fawry.antt =====
-- apps/web/app/api/webhooks/fawry/route.ts
use openwrapper.Prelude.{
  ℕ, Bool, true, false, not, ◌&&◌, ◌||◌, Option, none, some, ◌++◌, if◌then◌else◌,
}
use openwrapper.Js.Text.{Text, codes, ◌===◌, truthy, to_upper}
use openwrapper.Js.Json.{Json, str, get, ◌or_field◌, string_or_empty}
use openwrapper.Store.{World, PaymentRow, column_is}
use openwrapper.Store.Handler.{Handler, raise, ◌>>=◌, ◌>>◌, pure, modify}
use openwrapper.Access.BodyReader.{read_limited_text_body}
use openwrapper.Signatures.Rails.{
  FawryFields, FawryConfig, get_fawry_config, verify_fawry_webhook_signature,
}
use openwrapper.Webhooks.Shared.{
  HookEnv, HookRequest, HookReply, received, reject, max_hook_body, require_body, require_json,
  require_object, too_long, apply_found, id_of, record_event,
}

pub record FawryPayload : Type 0 where
  pub fields : FawryFields
  pub signature : Text

abbrev text_or_none : Text → Option Text
text_or_none s = if truthy s then some s else none

-- The reading of the payload, with the names that Fawry has used.
unfoldable pub read_payload : Json → FawryPayload
unfolding get string_or_empty
read_payload p =
    let amount = string_or_empty (get p (codes "paymentAmount") or_field get p (codes "amount")) in
    record {
      fields = record {
        fawry_ref_number =
            string_or_empty
              (get p (codes "fawryRefNumber") or_field get p (codes "referenceNumber"));
        merchant_ref_number =
            string_or_empty
              (get p (codes "merchantRefNumber") or_field get p (codes "merchantRefNum"));
        payment_amount = amount;
        order_amount = string_or_empty (get p (codes "orderAmount") or_field some (str amount));
        order_status =
            string_or_empty (get p (codes "orderStatus") or_field get p (codes "paymentStatus"));
        payment_method =
            string_or_empty
              (get p (codes "paymentMethod") or_field some (str (codes "PAYATFAWRY")));
        payment_reference_number = text_or_none (
            string_or_empty (
              get p (codes "paymentRefrenceNumber")
              or_field get p (codes "paymentReferenceNumber")));
      };
      signature =
          string_or_empty (get p (codes "messageSignature") or_field get p (codes "signature"));
    }

unfoldable pub fawry_status : Text → Text
unfolding to_upper ◌===◌
fawry_status order_status =
    let s = to_upper order_status in
    if s === codes "PAID" || s === codes "SUCCESS"
    then codes "succeeded"
    else if s === codes "UNPAID" || s === codes "NEW"
    then codes "pending"
    else codes "failed"

-- The `where` of the lookup: by merchant reference if there is one.
abbrev matches : FawryFields → PaymentRow → Bool
matches f r =
    r.provider === codes "fawry"
    && (if truthy f.merchant_ref_number
        then column_is r.merchant_reference f.merchant_ref_number
        else column_is r.provider_reference f.fawry_ref_number)

abbrev pub set_payment : Text → Text → ℕ → PaymentRow → PaymentRow → PaymentRow
set_payment status reference now found r = record r {
  status = status;
  provider_reference = if truthy reference then some reference else found.provider_reference;
  updated_at = now;
}

module _ (env : HookEnv) where
  abbrev pub require_config : Option FawryConfig → Handler HookReply FawryConfig
  require_config (some c) = pure c
  require_config none = reject 503 (codes "Fawry webhook verification is not configured")

  abbrev pub require_that : Bool → ℕ → Text → Handler HookReply (Unit {0})
  require_that true status message = pure tt
  require_that false status message = reject status message

  -- The checks in front of the database work.
  unfoldable pub verify_fawry : HookRequest → Handler HookReply FawryPayload
  unfolding read_limited_text_body
  verify_fawry r = do
    text ← require_body (read_limited_text_body env.decode max_hook_body r.body)
    parsed ← require_json (env.parse_json text)
    value ← require_object parsed
    let p = read_payload value
    require_that (not (too_long p.fields.fawry_ref_number || too_long p.fields.merchant_ref_number))
        400 (codes "Invalid webhook identifiers")
    config ← require_config (get_fawry_config env.vars)
    require_that (truthy p.signature) 401 (codes "Missing signature")
    require_that (verify_fawry_webhook_signature env.sha256 p.fields config.secure_key p.signature)
        401 (codes "Invalid signature")
    pure p

  abbrev find_fawry : FawryFields → World → Option PaymentRow
  find_fawry f w =
      if truthy f.merchant_ref_number || truthy f.fawry_ref_number
      then env.sql.select_one (matches f) w.payments
      else none

  -- The database work on a verified payload.
  unfoldable pub apply_fawry : FawryPayload → World → World
  unfolding fawry_status record_event ◌===◌
  apply_fawry p w =
      let f = p.fields in
      let status = fawry_status f.order_status in
      let found = find_fawry f w in
      record w {
        payments =
            apply_found found status (set_payment status f.fawry_ref_number env.now) w.payments;
        webhook_events =
            record_event
              (codes "fw_evt_"
                ++ (if truthy f.fawry_ref_number then f.fawry_ref_number else env.uuid))
              (codes "fawry") (id_of found) env.now w.webhook_events;
      }

  -- `POST`
  unfoldable pub fawry_webhook : HookRequest → Handler HookReply HookReply
  unfolding verify_fawry apply_fawry
  fawry_webhook r = do
    p ← verify_fawry r
    (if env.db_fails then (λ w. raise w) else modify (apply_fawry p))
    pure (record { status = 200; body = received (fawry_status p.fields.order_status) })
