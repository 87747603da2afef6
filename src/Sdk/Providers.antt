-- ===== src/Sdk/Providers.antt =====
-- `mergeProviders` and the credential headers of `payments.create` in sdk/typescript/src/client.ts.
-- A property of a credentials object is absent or a text; a number given as `integrationId` is its
-- decimal text.
use openwrapper.Prelude.{Option, none, some, List, [], ◌∷◌}
use openwrapper.Js.Text.{Text, codes, or_default}

pub record PaymobCredentials : Type 0 where
  pub secret_key : Option Text
  pub public_key : Option Text
  pub hmac_secret : Option Text
  pub integration_id : Option Text
  pub base_url : Option Text

pub record FawryCredentials : Type 0 where
  pub merchant_code : Option Text
  pub secure_key : Option Text
  pub base_url : Option Text

pub record StripeCredentials : Type 0 where
  pub secret_key : Option Text

pub record ProviderCredentials : Type 0 where
  pub paymob : Option PaymobCredentials
  pub fawry : Option FawryCredentials
  pub stripe : Option StripeCredentials

-- A property of `{ ...a, ...b }`
abbrev pub spread : Option Text → Option Text → Option Text
spread a none = a
spread a (some v) = some v

abbrev pub merge {ℓ} : {A : Type ℓ} → (A → A → A) → Option A → Option A → Option A
merge f none b = b
merge f (some a) none = some a
merge f (some a) (some b) = some (f a b)

abbrev spread_paymob : PaymobCredentials → PaymobCredentials → PaymobCredentials
spread_paymob a b = record {
  secret_key = spread a.secret_key b.secret_key;
  public_key = spread a.public_key b.public_key;
  hmac_secret = spread a.hmac_secret b.hmac_secret;
  integration_id = spread a.integration_id b.integration_id;
  base_url = spread a.base_url b.base_url;
}

abbrev spread_fawry : FawryCredentials → FawryCredentials → FawryCredentials
spread_fawry a b = record {
  merchant_code = spread a.merchant_code b.merchant_code;
  secure_key = spread a.secure_key b.secure_key;
  base_url = spread a.base_url b.base_url;
}

abbrev spread_stripe : StripeCredentials → StripeCredentials → StripeCredentials
spread_stripe a b = record { secret_key = spread a.secret_key b.secret_key }

abbrev no_credentials : ProviderCredentials
no_credentials = record { paymob = none; fawry = none; stripe = none }

-- `mergeProviders`
unfoldable pub merge_providers :
    Option ProviderCredentials → Option ProviderCredentials → ProviderCredentials
merge_providers defaults overrides =
    let d = or_default defaults no_credentials in
    let o = or_default overrides no_credentials in
    record {
      paymob = merge spread_paymob d.paymob o.paymob;
      fawry = merge spread_fawry d.fawry o.fawry;
      stripe = merge spread_stripe d.stripe o.stripe;
    }

-- `if (value) headers[name] = value`
abbrev pub header_if : Text → Option Text → List (Text × Text) → List (Text × Text)
header_if name none rest = rest
header_if name (some []) rest = rest
header_if name (some (c ∷ s)) rest = (name, c ∷ s) ∷ rest

abbrev pub paymob_headers : Option PaymobCredentials → List (Text × Text) → List (Text × Text)
paymob_headers none rest = rest
paymob_headers (some p) rest = header_if (codes "X-Paymob-Secret-Key") p.secret_key (
    header_if (codes "X-Paymob-Public-Key") p.public_key (
      header_if (codes "X-Paymob-Hmac-Secret") p.hmac_secret (
        header_if (codes "X-Paymob-Integration-Id") p.integration_id
          (header_if (codes "X-Paymob-Base-Url") p.base_url rest))))

abbrev pub fawry_headers : Option FawryCredentials → List (Text × Text) → List (Text × Text)
fawry_headers none rest = rest
fawry_headers (some f) rest = header_if (codes "X-Fawry-Merchant-Code") f.merchant_code (
    header_if (codes "X-Fawry-Secure-Key") f.secure_key
      (header_if (codes "X-Fawry-Base-Url") f.base_url rest))

abbrev pub stripe_headers : Option StripeCredentials → List (Text × Text)
stripe_headers none = []
stripe_headers (some s) = header_if (codes "X-Stripe-Secret-Key") s.secret_key []

-- The headers of `payments.create`.
unfoldable pub create_headers : Text → ProviderCredentials → List (Text × Text)
create_headers idempotency_key p =
    (codes "Idempotency-Key", idempotency_key)
    ∷ paymob_headers p.paymob (fawry_headers p.fawry (stripe_headers p.stripe))
