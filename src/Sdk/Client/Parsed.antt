-- ===== src/Sdk/Client/Parsed.antt =====
-- The body that `payments.create` of sdk/typescript/src/client.ts sends, under the schema of
-- apps/web/app/api/[version]/payments/route.ts.
use openwrapper.Prelude.{
  ℕ, ◌≤◌, ◌≡◌, refl, Bool, true, false, Option, none, some, List, [], ◌∷◌, leb, length, keep, All,
  arith,
}
use openwrapper.Js.Text.{Text, codes, ◌===◌, trim}
use openwrapper.Js.Json.{int, str, lookup}
use openwrapper.Payments.Input.{
  is_control, sanitize, bounded_string, nullish, phone_schema, tested_string, customer_schema,
  entries_schema, metadata_schema, amount_schema, provider_schema, currency_schema, PaymentInput,
  parse_payment_input,
}
use openwrapper.Sdk.Checks.{natural, validate_amount}
use openwrapper.Sdk.Client.Fields.{
  lookup-merchant_reference, lookup-description, lookup-return_url, lookup-metadata,
  lookup-optional_fields_absent, lookup-email, lookup-full_name, lookup-full_name_camel,
}
use openwrapper.Sdk.Client.Params.{
  PaymentProvider, paymob, fawry, stripe, mock, PaymentCurrency, egp, usd, eur, gbp, sar, aed, kwd,
  bhd, omr, jpy, provider_text, currency_text, CustomerDetails, CreatePaymentParams, text_json,
  fields_of, metadata_json, customer_body, payment_body,
}

-- A trimmed text within its bound, without control characters.
abbrev pub IsPlain : ℕ → Text → Type 0
IsPlain max s = (trim s ≡ s) × (length s ≤ max) × All (λ c. is_control c ≡ false) s

-- A trimmed text within its bound that passes a test.
abbrev pub IsTested : ℕ → (Text → Bool) → Text → Type 0
IsTested max good s = (trim s ≡ s) × (length s ≤ max) × (good s ≡ true)

abbrev pub IfGiven : {A : Type 0} → (A → Type 0) → Option A → Type 0
IfGiven P none = Unit
IfGiven P (some a) = P a

abbrev pub IsShortEntry : Text × Text → Type 0
IsShortEntry (k, s) = (length k ≤ 64) × (length s ≤ 1_000)

abbrev pub IsSmall : List (Text × Text) → Type 0
IsSmall es = (length es ≤ 50) × All IsShortEntry es

module _ (is_email is_url : Text → Bool) where
  -- Parameters within the service's bounds.
  pub record IsWithin (p : CreatePaymentParams) : Type 0 where
    pub phone : IsPlain 32 p.customer.phone
    pub phone_length : 3 ≤ length p.customer.phone
    pub email : IfGiven (IsTested 254 is_email) p.customer.email
    pub full_name : IfGiven (IsPlain 200) p.customer.full_name
    pub merchant_reference : IfGiven (IsPlain 255) p.merchant_reference
    pub description : IfGiven (IsPlain 500) p.description
    pub return_url : IfGiven (IsTested 2_048 is_url) p.return_url
    pub metadata : IfGiven IsSmall p.metadata

-- What the service reads of the parameters.
abbrev pub input_of : CreatePaymentParams → ℕ → PaymentInput
input_of p n = record {
  provider = provider_text p.provider;
  amount_minor_units = some n;
  amount = none;
  currency = currency_text p.currency;
  customer = record {
    phone = p.customer.phone;
    email = p.customer.email;
    full_name = p.customer.full_name;
    full_name_camel = none;
  };
  merchant_reference = p.merchant_reference;
  merchant_reference_camel = none;
  description = p.description;
  return_url = p.return_url;
  return_url_camel = none;
  metadata = p.metadata;
}

keep-plain : (s : Text) → All (λ c. is_control c ≡ false) s → sanitize s ≡ s
unfolding sanitize keep
keep-plain [] h = refl
keep-plain (c ∷ s) (e, h) = rw (e, keep-plain s h) refl

bounded_string-plain : (max : ℕ) (s : Text) → IsPlain max s → bounded_string max (str s) ≡ some s
unfolding bounded_string
bounded_string-plain max s (t, short, h) =
    let e : leb (length s) max ≡ true = ground arith in rw (t, e, keep-plain s h) refl

phone-plain : (s : Text) → IsPlain 32 s → 3 ≤ length s → phone_schema (str s) ≡ some s
phone-plain s h long =
    let e : leb 3 (length s) ≡ true = ground arith in rw (bounded_string-plain 32 s h, e) refl

nullish-plain :
    (max : ℕ) (v : Option Text)
    → IfGiven (IsPlain max) v
    → nullish (bounded_string max) (text_json v) ≡ some v
nullish-plain max none h = refl
nullish-plain max (some s) h = rw (bounded_string-plain max s h) refl

nullish-tested :
    (max : ℕ) (good : Text → Bool) (v : Option Text)
    → IfGiven (IsTested max good) v
    → nullish (tested_string max good) (text_json v) ≡ some v
nullish-tested max good none h = refl
nullish-tested max good (some s) (t, short, h) =
    let e : leb (length s) max ≡ true = ground arith in rw (t, h, e) refl

entries_schema-fields_of :
    (es : List (Text × Text)) → All IsShortEntry es → entries_schema (fields_of es) ≡ some es
unfolding entries_schema fields_of
entries_schema-fields_of [] h = refl
entries_schema-fields_of ((k, s) ∷ es) ((short_key, short), h) =
    let a : leb (length k) 64 ≡ true = ground arith in
    let b : leb (length s) 1_000 ≡ true = ground arith in
    rw (a, b, entries_schema-fields_of es h) refl

nullish-metadata :
    (m : Option (List (Text × Text)))
    → IfGiven IsSmall m
    → nullish metadata_schema (metadata_json m) ≡ some m
unfolding metadata_schema
nullish-metadata none h = refl
nullish-metadata (some es) (few, h) =
    let e : leb (length es) 50 ≡ true = ground arith in rw (entries_schema-fields_of es h, e) refl

provider_schema-provider_text :
    (p : PaymentProvider) → provider_schema (str (provider_text p)) ≡ some (provider_text p)
unfolding provider_schema bounded_string ◌===◌
provider_schema-provider_text paymob = refl
provider_schema-provider_text fawry = refl
provider_schema-provider_text stripe = refl
provider_schema-provider_text mock = refl

currency_schema-currency_text :
    (c : PaymentCurrency) → currency_schema (str (currency_text c)) ≡ some (currency_text c)
unfolding currency_schema bounded_string
currency_schema-currency_text egp = refl
currency_schema-currency_text usd = refl
currency_schema-currency_text eur = refl
currency_schema-currency_text gbp = refl
currency_schema-currency_text sar = refl
currency_schema-currency_text aed = refl
currency_schema-currency_text kwd = refl
currency_schema-currency_text bhd = refl
currency_schema-currency_text omr = refl
currency_schema-currency_text jpy = refl

pub amount_schema-validate_amount :
    (n : ℕ) → validate_amount (natural n) ≡ none → amount_schema (int n) ≡ some n
unfolding amount_schema validate_amount
amount_schema-validate_amount n h = ground arith

module _ (is_email is_url : Text → Bool) where
  customer_schema-customer_body :
      (c : CustomerDetails)
      → IsPlain 32 c.phone
      → 3 ≤ length c.phone
      → IfGiven (IsTested 254 is_email) c.email
      → IfGiven (IsPlain 200) c.full_name
      → customer_schema is_email is_url (customer_body c)
        ≡ some (record {
          phone = c.phone;
          email = c.email;
          full_name = c.full_name;
          full_name_camel = none;
        })
  unfolding lookup ◌===◌
  customer_schema-customer_body c phone long email name =
      let e = text_json c.email in
      let n = text_json c.full_name in
      rw
        (
          phone-plain c.phone phone long,
          lookup-email e n,
          lookup-full_name e n,
          lookup-full_name_camel e n,
          nullish-tested 254 is_email c.email email,
          nullish-plain 200 c.full_name name,
        )
        refl

  -- What the client sends for parameters within the service's bounds, the service reads as those
  -- parameters: every field under its name, nothing of it changed, and no field besides.
  pub parse_payment_input-payment_body :
      (p : CreatePaymentParams) (n : ℕ)
      → amount_schema (int n) ≡ some n
      → IsWithin is_email is_url p
      → parse_payment_input is_email is_url (payment_body p n) ≡ some (input_of p n)
  unfolding parse_payment_input payment_body lookup ◌===◌
  parse_payment_input-payment_body p n amount w =
      let r = text_json p.merchant_reference in
      let d = text_json p.description in
      let u = text_json p.return_url in
      let m = metadata_json p.metadata in
      rw
        (
          provider_schema-provider_text p.provider,
          currency_schema-currency_text p.currency,
          amount,
          customer_schema-customer_body p.customer w.phone w.phone_length w.email w.full_name,
          lookup-merchant_reference r d u m,
          lookup-description r d u m,
          lookup-return_url r d u m,
          lookup-metadata r d u m,
          lookup-optional_fields_absent (codes "amount") r d u m refl refl refl refl,
          lookup-optional_fields_absent (codes "merchantReference") r d u m refl refl refl refl,
          lookup-optional_fields_absent (codes "returnUrl") r d u m refl refl refl refl,
          nullish-plain 255 p.merchant_reference w.merchant_reference,
          nullish-plain 500 p.description w.description,
          nullish-tested 2_048 is_url p.return_url w.return_url,
          nullish-metadata p.metadata w.metadata,
        )
        refl
