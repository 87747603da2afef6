-- ===== src/Sdk/Accepted.antt =====
-- The credentials that `payments.create` of sdk/typescript/src/client.ts sends, under the check of
-- apps/web/lib/provider-credentials.ts.
use openwrapper.Sdk.Sent.{
  over, has_value, over-header_if, paymob-secret_key, paymob-public_key, paymob-hmac_secret,
  paymob-integration_id, over-paymob_headers, fawry-merchant_code, fawry-secure_key,
  over-fawry_headers,
}
use openwrapper.Access.Credentials
use openwrapper.Sdk.Providers.{create_headers, stripe_headers, paymob_headers, fawry_headers}
use openwrapper.Access.Authenticator.{Headers}
use openwrapper.Js.Text.{===_iff, Text, codes, ◌===◌, to_lower}
use openwrapper.Prelude.{
  inr, inl, Bool-cases, keep, arith, if◌then◌else◌, ◌&&◌, ◌≡◌, refl, Bool, true, false, Option,
  none, some, List, [], ◌∷◌,
}
use openwrapper.Sdk.Providers.{
  ProviderCredentials, PaymobCredentials, FawryCredentials, StripeCredentials,
}
use openwrapper.Access.Credentials.{
  headers_say_test, ok, validate_provider_credentials, has_header, missing_headers,
}

abbrev paymob_complete : Option PaymobCredentials → Bool
paymob_complete none = false
paymob_complete (some p) =
    has_value p.secret_key
    && has_value p.public_key
    && has_value p.hmac_secret
    && has_value p.integration_id

abbrev fawry_complete : Option FawryCredentials → Bool
fawry_complete none = false
fawry_complete (some f) = has_value f.merchant_code && has_value f.secure_key

abbrev stripe_complete : Option StripeCredentials → Bool
stripe_complete none = false
stripe_complete (some s) = has_value s.secret_key

-- The credentials that a provider needs are there and not blank.
abbrev pub complete_for : Text → ProviderCredentials → Bool
complete_for provider p =
    if provider === codes "paymob"
    then paymob_complete p.paymob
    else if provider === codes "fawry"
    then fawry_complete p.fawry
    else if provider === codes "stripe"
    then stripe_complete p.stripe
    else true

missing-paymob :
    (headers : Headers)
    → has_value (headers (codes "x-paymob-secret-key")) ≡ true
    → has_value (headers (codes "x-paymob-public-key")) ≡ true
    → has_value (headers (codes "x-paymob-hmac-secret")) ≡ true
    → has_value (headers (codes "x-paymob-integration-id")) ≡ true
    → missing_headers headers Credentials.paymob_headers ≡ []
unfolding missing_headers has_header keep
missing-paymob headers a b c d = rw (a, b, c, d)

missing-fawry :
    (headers : Headers)
    → has_value (headers (codes "x-fawry-merchant-code")) ≡ true
    → has_value (headers (codes "x-fawry-secure-key")) ≡ true
    → missing_headers headers Credentials.fawry_headers ≡ []
unfolding missing_headers has_header keep
missing-fawry headers a b = rw (a, b)

-- Complete credentials of Paymob leave none of its headers missing.
paymob_complete-missing :
    (m : Option PaymobCredentials) (rest : List (Text × Text)) (base : Headers) (key : Text)
    → paymob_complete m ≡ true
    → missing_headers
        (over ((codes "Idempotency-Key", key) ∷ paymob_headers m rest) base)
        Credentials.paymob_headers
      ≡ []
unfolding ◌===◌ to_lower
paymob_complete-missing none rest base key h = ground arith
paymob_complete-missing (some q) rest base key h =
    missing-paymob (over ((codes "Idempotency-Key", key) ∷ paymob_headers (some q) rest) base)
      (paymob-secret_key q rest base (ground arith)) (paymob-public_key q rest base (ground arith))
      (paymob-hmac_secret q rest base (ground arith))
      (paymob-integration_id q rest base (ground arith))

fawry_complete-missing :
    (p : Option PaymobCredentials) (m : Option FawryCredentials) (rest : List (Text × Text))
    (base : Headers) (key : Text)
    → fawry_complete m ≡ true
    → missing_headers
        (over ((codes "Idempotency-Key", key) ∷ paymob_headers p (fawry_headers m rest)) base)
        Credentials.fawry_headers
      ≡ []
unfolding ◌===◌ to_lower
fawry_complete-missing p none rest base key h = ground arith
fawry_complete-missing p (some q) rest base key h =
    missing-fawry
      (over ((codes "Idempotency-Key", key) ∷ paymob_headers p (fawry_headers (some q) rest)) base)
      (rw (
        over-paymob_headers p (fawry_headers (some q) rest) base (codes "x-fawry-merchant-code")
            refl refl refl refl refl,
        fawry-merchant_code q rest base (ground arith),
      ))
      (rw (
        over-paymob_headers p (fawry_headers (some q) rest) base (codes "x-fawry-secure-key") refl
            refl refl refl refl,
        fawry-secure_key q rest base (ground arith),
      ))

stripe_complete-present :
    (p : Option PaymobCredentials) (f : Option FawryCredentials) (m : Option StripeCredentials)
    (base : Headers) (key : Text)
    → stripe_complete m ≡ true
    → has_value (
        over
          ((codes "Idempotency-Key", key) ∷ paymob_headers p (fawry_headers f (stripe_headers m)))
          base
          (codes "x-stripe-secret-key"))
      ≡ true
unfolding ◌===◌ to_lower
stripe_complete-present p f none base key h = ground arith
stripe_complete-present p f (some q) base key h = rw (
  over-paymob_headers p (fawry_headers f (stripe_headers (some q))) base
      (codes "x-stripe-secret-key") refl refl refl refl refl,
  over-fawry_headers f (stripe_headers (some q)) base (codes "x-stripe-secret-key") refl refl refl,
  over-header_if (codes "X-Stripe-Secret-Key") (codes "x-stripe-secret-key") q.secret_key [] base
      refl h,
)

complete-paymob :
    (provider : Text) (p : ProviderCredentials)
    → (provider === codes "paymob") ≡ true
    → complete_for provider p ≡ true
    → paymob_complete p.paymob ≡ true
complete-paymob provider p e h = rw (← h, e)

complete-fawry :
    (provider : Text) (p : ProviderCredentials)
    → (provider === codes "fawry") ≡ true
    → complete_for provider p ≡ true
    → fawry_complete p.fawry ≡ true
unfolding ◌===◌
complete-fawry provider p e h = rw (← h, (===_iff provider (codes "fawry")).0 e)

complete-stripe :
    (provider : Text) (p : ProviderCredentials)
    → (provider === codes "stripe") ≡ true
    → complete_for provider p ≡ true
    → stripe_complete p.stripe ≡ true
unfolding ◌===◌
complete-stripe provider p e h = rw (← h, (===_iff provider (codes "stripe")).0 e)

-- The check passes when nothing that the provider needs is missing.
validate_provider_credentials_ok :
    (env : Text → Option Text) (provider : Text) (headers : Headers) (body_key : Option Text)
    (is_test_mode : Bool)
    → ((provider === codes "paymob") ≡ true
        → missing_headers headers Credentials.paymob_headers ≡ [])
    → ((provider === codes "fawry") ≡ true → missing_headers headers Credentials.fawry_headers ≡ [])
    → ((provider === codes "stripe") ≡ true
        → has_value (headers (codes "x-stripe-secret-key")) ≡ true)
    → validate_provider_credentials env provider headers body_key is_test_mode ≡ ok
unfolding validate_provider_credentials
validate_provider_credentials_ok env provider headers body_key is_test_mode hp hf hs =
    elim (Bool-cases (provider === codes "paymob")) [
      | inl paymob ↦ rw (paymob, hp paymob) (ground arith)
      | inr not_paymob ↦ elim (Bool-cases (provider === codes "fawry")) [
        | inl fawry ↦ rw (not_paymob, fawry, hf fawry) (ground arith)
        | inr not_fawry ↦ elim (Bool-cases (provider === codes "stripe")) [
          | inl stripe ↦ rw (not_paymob, not_fawry, stripe, hs stripe) (ground (arith, hs stripe))
          | inr not_stripe ↦ rw (not_paymob, not_fawry, not_stripe) (ground arith)
        ]
      ]
    ]

-- Whatever else is in the request and whatever the service's environment: when the credentials of a
-- payment's provider are complete and not blank, the service accepts the headers that the client sends
-- for them. A provider without credentials of its own is accepted as well.
pub validate_provider_credentials-create_headers :
    (env : Text → Option Text) (provider key : Text) (p : ProviderCredentials) (base : Headers)
    (body_key : Option Text) (is_test_mode : Bool)
    → complete_for provider p ≡ true
    → validate_provider_credentials env provider
        (over (create_headers key p) base)
        body_key
        is_test_mode
      ≡ ok
unfolding validate_provider_credentials create_headers
validate_provider_credentials-create_headers env provider key p base body_key is_test_mode h =
    validate_provider_credentials_ok env provider (over (create_headers key p) base) body_key
      is_test_mode
      (λ e.
        paymob_complete-missing p.paymob (fawry_headers p.fawry (stripe_headers p.stripe)) base key
          (complete-paymob provider p e h))
      (λ e.
        fawry_complete-missing p.paymob p.fawry (stripe_headers p.stripe) base key
          (complete-fawry provider p e h))
      (λ e.
        stripe_complete-present p.paymob p.fawry p.stripe base key (complete-stripe provider p e h))
