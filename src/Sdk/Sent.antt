-- ===== src/Sdk/Sent.antt =====
-- Which header the web service finds among those that `payments.create` of
-- sdk/typescript/src/client.ts sends.
use openwrapper.Sdk.Providers.{paymob_headers, fawry_headers}
use openwrapper.Js.Text.Laws.{trim-All}
use openwrapper.Access.Authenticator.{Headers}
use openwrapper.Js.Text.{Text, codes, ◌===◌, present, trim_opt, to_lower}
use openwrapper.Prelude.{
  arith, if◌then◌else◌, ◌≡◌, refl, Bool, true, false, Option, none, some, List, [], ◌∷◌,
}
use openwrapper.Sdk.Providers.{PaymobCredentials, FawryCredentials, header_if}

-- Headers over others: the name of a header is matched whatever its case.
abbrev pub over : List (Text × Text) → Headers → Headers
over [] base name = base name
over ((n, v) ∷ rest) base name = if to_lower n === name then some v else over rest base name

abbrev pub has_value : Option Text → Bool
has_value v = present (trim_opt v)

has_value-[] : has_value (some []) ≡ false
has_value-[] = rw (trim-All [] tt)

-- The header that is asked for is sent.
pub over-header_if :
    (n name : Text) (v : Option Text) (rest : List (Text × Text)) (base : Headers)
    → (to_lower n === name) ≡ true
    → has_value v ≡ true
    → has_value (over (header_if n v rest) base name) ≡ true
over-header_if n name none rest base e h = ground arith
over-header_if n name (some []) rest base e h = ground (arith, has_value-[])
over-header_if n name (some (c ∷ s)) rest base e h = rw (e, h)

-- Another header does not hide it.
pub over-header_if_other :
    (n name : Text) (v : Option Text) (rest : List (Text × Text)) (base : Headers)
    → (to_lower n === name) ≡ false
    → over (header_if n v rest) base name ≡ over rest base name
over-header_if_other n name none rest base e = refl
over-header_if_other n name (some []) rest base e = refl
over-header_if_other n name (some (c ∷ s)) rest base e = rw e

-- Each header that Paymob needs is found.
pub paymob-secret_key :
    (q : PaymobCredentials) (rest : List (Text × Text)) (base : Headers)
    → has_value q.secret_key ≡ true
    → has_value (over (paymob_headers (some q) rest) base (codes "x-paymob-secret-key")) ≡ true
unfolding ◌===◌ to_lower
paymob-secret_key q rest base h =
    over-header_if (codes "X-Paymob-Secret-Key") (codes "x-paymob-secret-key") q.secret_key _ base
      refl h

pub paymob-public_key :
    (q : PaymobCredentials) (rest : List (Text × Text)) (base : Headers)
    → has_value q.public_key ≡ true
    → has_value (over (paymob_headers (some q) rest) base (codes "x-paymob-public-key")) ≡ true
unfolding ◌===◌ to_lower
paymob-public_key q rest base h = rw (
  over-header_if_other (codes "X-Paymob-Secret-Key") (codes "x-paymob-public-key") q.secret_key _
      base refl,
  over-header_if (codes "X-Paymob-Public-Key") (codes "x-paymob-public-key") q.public_key _ base
      refl h,
)

pub paymob-hmac_secret :
    (q : PaymobCredentials) (rest : List (Text × Text)) (base : Headers)
    → has_value q.hmac_secret ≡ true
    → has_value (over (paymob_headers (some q) rest) base (codes "x-paymob-hmac-secret")) ≡ true
unfolding ◌===◌ to_lower
paymob-hmac_secret q rest base h = rw (
  over-header_if_other (codes "X-Paymob-Secret-Key") (codes "x-paymob-hmac-secret") q.secret_key _
      base refl,
  over-header_if_other (codes "X-Paymob-Public-Key") (codes "x-paymob-hmac-secret") q.public_key _
      base refl,
  over-header_if (codes "X-Paymob-Hmac-Secret") (codes "x-paymob-hmac-secret") q.hmac_secret _ base
      refl h,
)

pub paymob-integration_id :
    (q : PaymobCredentials) (rest : List (Text × Text)) (base : Headers)
    → has_value q.integration_id ≡ true
    → has_value (over (paymob_headers (some q) rest) base (codes "x-paymob-integration-id")) ≡ true
unfolding ◌===◌ to_lower
paymob-integration_id q rest base h = rw (
  over-header_if_other (codes "X-Paymob-Secret-Key") (codes "x-paymob-integration-id") q.secret_key
      _ base refl,
  over-header_if_other (codes "X-Paymob-Public-Key") (codes "x-paymob-integration-id") q.public_key
      _ base refl,
  over-header_if_other (codes "X-Paymob-Hmac-Secret") (codes "x-paymob-integration-id")
      q.hmac_secret _ base refl,
  over-header_if (codes "X-Paymob-Integration-Id") (codes "x-paymob-integration-id")
      q.integration_id _ base refl h,
)

-- The headers of another provider hide none of its own.
pub over-paymob_headers :
    (p : Option PaymobCredentials) (rest : List (Text × Text)) (base : Headers) (name : Text)
    → (to_lower (codes "X-Paymob-Secret-Key") === name) ≡ false
    → (to_lower (codes "X-Paymob-Public-Key") === name) ≡ false
    → (to_lower (codes "X-Paymob-Hmac-Secret") === name) ≡ false
    → (to_lower (codes "X-Paymob-Integration-Id") === name) ≡ false
    → (to_lower (codes "X-Paymob-Base-Url") === name) ≡ false
    → over (paymob_headers p rest) base name ≡ over rest base name
over-paymob_headers none rest base name _ _ _ _ _ = refl
over-paymob_headers (some q) rest base name e0 e1 e2 e3 e4 = rw (
  over-header_if_other (codes "X-Paymob-Secret-Key") name q.secret_key _ base e0,
  over-header_if_other (codes "X-Paymob-Public-Key") name q.public_key _ base e1,
  over-header_if_other (codes "X-Paymob-Hmac-Secret") name q.hmac_secret _ base e2,
  over-header_if_other (codes "X-Paymob-Integration-Id") name q.integration_id _ base e3,
  over-header_if_other (codes "X-Paymob-Base-Url") name q.base_url _ base e4,
)

pub fawry-merchant_code :
    (q : FawryCredentials) (rest : List (Text × Text)) (base : Headers)
    → has_value q.merchant_code ≡ true
    → has_value (over (fawry_headers (some q) rest) base (codes "x-fawry-merchant-code")) ≡ true
unfolding ◌===◌ to_lower
fawry-merchant_code q rest base h =
    over-header_if (codes "X-Fawry-Merchant-Code") (codes "x-fawry-merchant-code") q.merchant_code _
      base refl h

pub fawry-secure_key :
    (q : FawryCredentials) (rest : List (Text × Text)) (base : Headers)
    → has_value q.secure_key ≡ true
    → has_value (over (fawry_headers (some q) rest) base (codes "x-fawry-secure-key")) ≡ true
unfolding ◌===◌ to_lower
fawry-secure_key q rest base h = rw (
  over-header_if_other (codes "X-Fawry-Merchant-Code") (codes "x-fawry-secure-key") q.merchant_code
      _ base refl,
  over-header_if (codes "X-Fawry-Secure-Key") (codes "x-fawry-secure-key") q.secure_key _ base refl
      h,
)

-- The headers of another provider hide none of its own.
pub over-fawry_headers :
    (p : Option FawryCredentials) (rest : List (Text × Text)) (base : Headers) (name : Text)
    → (to_lower (codes "X-Fawry-Merchant-Code") === name) ≡ false
    → (to_lower (codes "X-Fawry-Secure-Key") === name) ≡ false
    → (to_lower (codes "X-Fawry-Base-Url") === name) ≡ false
    → over (fawry_headers p rest) base name ≡ over rest base name
over-fawry_headers none rest base name _ _ _ = refl
over-fawry_headers (some q) rest base name e0 e1 e2 = rw (
  over-header_if_other (codes "X-Fawry-Merchant-Code") name q.merchant_code _ base e0,
  over-header_if_other (codes "X-Fawry-Secure-Key") name q.secure_key _ base e1,
  over-header_if_other (codes "X-Fawry-Base-Url") name q.base_url _ base e2,
)
