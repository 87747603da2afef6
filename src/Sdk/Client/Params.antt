-- ===== src/Sdk/Client/Params.antt =====
-- The arguments of the client's methods (sdk/typescript/src/types.ts) and the bodies that
-- sdk/typescript/src/client.ts makes of them: a field that is undefined is not sent.
use openwrapper.Prelude.{ℕ, Option, none, some, List, [], ◌∷◌}
use openwrapper.Js.Text.{Text, codes}
use openwrapper.Js.Json.{Json, int, str, arr, obj, Elems, nil, cons, Fields, end, field}
use openwrapper.Sdk.Checks.{Number}
use openwrapper.Sdk.Providers.{ProviderCredentials}

pub data PaymentProvider : Type 0 where
  paymob fawry stripe mock : PaymentProvider

pub data PaymentCurrency : Type 0 where
  egp usd eur gbp sar aed kwd bhd omr jpy : PaymentCurrency

abbrev pub provider_text : PaymentProvider → Text
provider_text paymob = codes "paymob"
provider_text fawry = codes "fawry"
provider_text stripe = codes "stripe"
provider_text mock = codes "mock"

abbrev pub currency_text : PaymentCurrency → Text
currency_text egp = codes "EGP"
currency_text usd = codes "USD"
currency_text eur = codes "EUR"
currency_text gbp = codes "GBP"
currency_text sar = codes "SAR"
currency_text aed = codes "AED"
currency_text kwd = codes "KWD"
currency_text bhd = codes "BHD"
currency_text omr = codes "OMR"
currency_text jpy = codes "JPY"

pub record CustomerDetails : Type 0 where
  pub phone : Text
  pub email : Option Text
  pub full_name : Option Text

pub record CreatePaymentParams : Type 0 where
  pub provider : PaymentProvider
  pub amount_minor_units : Number
  pub currency : PaymentCurrency
  pub customer : CustomerDetails
  pub merchant_reference : Option Text
  pub description : Option Text
  pub return_url : Option Text
  pub metadata : Option (List (Text × Text))

pub record CreatePaymentOptions : Type 0 where
  pub idempotency_key : Option Text
  pub providers : Option ProviderCredentials
  pub timeout_ms : Option Number

-- `CreateRefundParams | number`
pub data RefundParams : Type 0 where
  amount : Number → RefundParams
  described : (amount_minor_units : Number) → (reason : Option Text) → RefundParams

-- The limit is a natural number.
pub record ListEventsParams : Type 0 where
  pub limit : Option ℕ
  pub starting_after : Option Text

pub record CreateWebhookEndpointParams : Type 0 where
  pub url : Text
  pub events : Option (List Text)

abbrev pub field_if : Text → Option Json → Fields → Fields
field_if k none rest = rest
field_if k (some v) rest = field k v rest

abbrev pub text_json : Option Text → Option Json
text_json none = none
text_json (some s) = some (str s)

unfoldable pub fields_of : List (Text × Text) → Fields
fields_of [] = end
fields_of ((k, s) ∷ es) = field k (str s) (fields_of es)

abbrev pub metadata_json : Option (List (Text × Text)) → Option Json
metadata_json none = none
metadata_json (some es) = some (obj (fields_of es))

abbrev pub customer_body : CustomerDetails → Json
customer_body c = obj (
    field (codes "phone") (str c.phone) (
      field_if (codes "email") (text_json c.email)
        (field_if (codes "full_name") (text_json c.full_name) end)))

-- The body of `payments.create`, with its amount.
unfoldable pub payment_body : CreatePaymentParams → ℕ → Json
unfolding fields_of
payment_body p n = obj (
    field (codes "provider") (str (provider_text p.provider)) (
      field (codes "amount_minor_units") (int n) (
        field (codes "currency") (str (currency_text p.currency)) (
          field (codes "customer") (customer_body p.customer) (
            field_if (codes "merchant_reference") (text_json p.merchant_reference) (
              field_if (codes "description") (text_json p.description) (
                field_if (codes "return_url") (text_json p.return_url)
                  (field_if (codes "metadata") (metadata_json p.metadata) end))))))))

abbrev pub refund_amount : RefundParams → Number
refund_amount (amount n) = n
refund_amount (described n reason) = n

abbrev reason_of : RefundParams → Option Text
reason_of (amount n) = none
reason_of (described n reason) = reason

-- The body of `refunds.create`, with its amount.
unfoldable pub refund_body : RefundParams → ℕ → Json
refund_body p n = obj (
    field (codes "amount_minor_units") (int n)
      (field_if (codes "reason") (text_json (reason_of p)) end))

elems_of : List Text → Elems
elems_of [] = nil
elems_of (s ∷ rest) = cons (str s) (elems_of rest)

abbrev texts_json : Option (List Text) → Option Json
texts_json none = none
texts_json (some texts) = some (arr (elems_of texts))

-- The body of `webhookEndpoints.create`.
unfoldable pub endpoint_body : CreateWebhookEndpointParams → Json
unfolding elems_of
endpoint_body p =
    obj (field (codes "url") (str p.url) (field_if (codes "events") (texts_json p.events) end))
