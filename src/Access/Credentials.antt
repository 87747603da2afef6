-- ===== src/Access/Credentials.antt =====
-- apps/web/lib/provider-credentials.ts
use openwrapper.Prelude.{
  Bool, true, false, not, ◌&&◌, ◌||◌, Option, none, some, List, [], ◌∷◌, if◌then◌else◌, keep,
}
use openwrapper.Js.Text.{
  Text, codes, ◌===◌, present, ◌or◌, trim_opt, lower_opt, is_text, includes, trim, to_lower,
}
use openwrapper.Access.Authenticator.{Headers}

pub data CredentialValidation : Type 0 where
  ok : CredentialValidation
  missing : (message : Text) → CredentialValidation

abbrev pub paymob_headers : List Text
paymob_headers =
    codes "x-paymob-secret-key"
    ∷ codes "x-paymob-public-key"
    ∷ codes "x-paymob-hmac-secret"
    ∷ codes "x-paymob-integration-id"
    ∷ []

abbrev pub fawry_headers : List Text
fawry_headers = codes "x-fawry-merchant-code" ∷ codes "x-fawry-secure-key" ∷ []

unfoldable pub has_header : Headers → Text → Bool
unfolding trim
has_header headers name = present (trim_opt (headers name))

-- `process.env.X?.trim()` is a non-empty text.
abbrev pub is_set : (Text → Option Text) → Text → Bool
is_set env name = present (trim_opt (env name))

unfoldable pub has_ambient_paymob : (Text → Option Text) → Bool
has_ambient_paymob env =
    is_set env (codes "PAYMOB_SECRET_KEY")
    && is_set env (codes "PAYMOB_PUBLIC_KEY")
    && is_set env (codes "PAYMOB_HMAC_SECRET")
    && is_set env (codes "PAYMOB_INTEGRATION_ID")

unfoldable pub has_ambient_fawry : (Text → Option Text) → Bool
has_ambient_fawry env =
    is_set env (codes "FAWRY_MERCHANT_CODE") && is_set env (codes "FAWRY_SECURE_KEY")

unfoldable pub has_ambient_stripe : (Text → Option Text) → Bool
has_ambient_stripe env = is_set env (codes "STRIPE_SECRET_KEY")

abbrev includes_opt : Option Text → Text → Bool
includes_opt none t = false
includes_opt (some s) t = includes s t

-- The tests of `isTest` beside the option `isTestMode`.
unfoldable pub headers_say_test : Headers → Bool
unfolding includes to_lower ◌===◌
headers_say_test headers =
    let auth = lower_opt (headers (codes "authorization")) in
    let x_key = lower_opt (headers (codes "x-api-key")) in
    is_text (lower_opt (headers (codes "x-openwrapper-environment"))) (codes "test")
    || includes_opt auth (codes "ow_test_")
    || includes_opt x_key (codes "ow_test_")
    || includes_opt auth (codes "sandbox")
    || includes_opt x_key (codes "sandbox")

-- The headers of `names` that are absent or blank.
unfoldable pub missing_headers : Headers → List Text → List Text
unfolding keep
missing_headers headers names = keep (λ h. not (has_header headers h)) names

abbrev refuse_if : Bool → Text → CredentialValidation
refuse_if true message = missing message
refuse_if false message = ok

abbrev is_empty : List Text → Bool
is_empty [] = true
is_empty (_ ∷ _) = false

-- `body_key` is `body?.provider_credentials?.stripe_secret_key`.
unfoldable pub validate_provider_credentials :
    (Text → Option Text) → Text → Headers → Option Text → Bool → CredentialValidation
unfolding ◌===◌
validate_provider_credentials env provider headers body_key is_test_mode =
    if is_test_mode || headers_say_test headers
    then ok
    else if provider === codes "paymob"
    then if has_ambient_paymob env
      then ok
      else refuse_if (not (is_empty (missing_headers headers paymob_headers))) (
          codes
            "Paymob credentials missing. Provide X-Paymob-Secret-Key, X-Paymob-Public-Key, X-Paymob-Hmac-Secret, and X-Paymob-Integration-Id headers.")
    else if provider === codes "fawry"
    then if has_ambient_fawry env
      then ok
      else refuse_if (not (is_empty (missing_headers headers fawry_headers))) (
          codes
            "Fawry credentials missing. Provide X-Fawry-Merchant-Code and X-Fawry-Secure-Key headers.")
    else if provider === codes "stripe"
    then if has_ambient_stripe env
      then ok
      else refuse_if
          (not (present (trim_opt (headers (codes "x-stripe-secret-key")) or trim_opt body_key)))
          (codes "Stripe credentials missing. Provide X-Stripe-Secret-Key header.")
    else ok
