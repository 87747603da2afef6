-- ===== src/Ledger/Response.antt =====
-- `paymentToApiResponse` of apps/web/lib/payment-ledger-service.ts
use openwrapper.Prelude.{ℕ, ◌++◌, Option, none, some, if◌then◌else◌}
use openwrapper.Js.Text.{Text, codes, ◌===◌, present, is_text, or_text}
use openwrapper.Store.{PaymentRow}

pub data NextAction : Type 0 where
  redirect_to_url : (url : Option Text) → NextAction
  pay_at_reference : (reference : Option Text) → (instructions : Text) → NextAction

-- The JSON object of a payment.
pub record PaymentView : Type 0 where
  pub payment_id : Text
  pub provider : Text
  pub provider_reference : Option Text
  pub status : Text
  pub amount_minor_units : ℕ
  pub currency : Text
  pub merchant_reference : Option Text
  pub next_action : Option NextAction

-- A nullable value inside a template literal.
abbrev pub shown : Option Text → Text
shown none = codes "null"
shown (some s) = s

abbrev pub next_action_of : Option Text → Option Text → Text → Option NextAction
next_action_of type payload instructions =
    if present type
    then if is_text type (codes "redirect_to_url")
      then some (redirect_to_url payload)
      else some (pay_at_reference payload instructions)
    else none

unfoldable pub payment_to_api_response : PaymentRow → Option Text → PaymentView
unfolding ◌===◌
payment_to_api_response row provider =
    let outlet =
      if or_text provider row.provider === codes "fawry" then codes "Fawry" else codes "kiosk" in
    record {
      payment_id = row.id;
      provider = row.provider;
      provider_reference = row.provider_reference;
      status = row.status;
      amount_minor_units = row.amount_minor_units;
      currency = row.currency;
      merchant_reference = row.merchant_reference;
      next_action = next_action_of row.next_action_type row.next_action_payload (
          or_text row.description (
            codes "Pay at any "
            ++ outlet
            ++ codes " outlet using reference code: "
            ++ shown row.next_action_payload));
    }
