-- ===== src/Signatures/Rails.antt =====
-- The signatures of apps/web/lib/fawry-rail.ts and paymob-rail.ts. SHA-256 in hex and
-- HMAC-SHA-512 in hex (secret, then text) are arguments.
use openwrapper.Prelude.{Bool, ◌&&◌, Option, none, some, List, [], ◌∷◌, ◌++◌, map, if◌then◌else◌}
use openwrapper.Js.Text.{Text, codes, or_default, or_text, truthy, concat, split_list}
use openwrapper.Js.Json.{Json, null, get, to_string, truthy_field}
use openwrapper.Signatures.Compare.{constant_time_eq_hex}

-- What a Fawry webhook signs.
pub record FawryFields : Type 0 where
  pub fawry_ref_number : Text
  pub merchant_ref_number : Text
  pub payment_amount : Text
  pub order_amount : Text
  pub order_status : Text
  pub payment_method : Text
  pub payment_reference_number : Option Text

unfoldable pub calculate_fawry_webhook_signature : (Text → Text) → FawryFields → Text → Text
calculate_fawry_webhook_signature sha256 f secure_key = sha256 (
    f.fawry_ref_number
    ++ f.merchant_ref_number
    ++ f.payment_amount
    ++ f.order_amount
    ++ f.order_status
    ++ f.payment_method
    ++ or_default f.payment_reference_number []
    ++ secure_key)

unfoldable pub verify_fawry_webhook_signature : (Text → Text) → FawryFields → Text → Text → Bool
unfolding calculate_fawry_webhook_signature constant_time_eq_hex
verify_fawry_webhook_signature sha256 f secure_key received =
    constant_time_eq_hex (calculate_fawry_webhook_signature sha256 f secure_key) received

-- `calculateFawryChargeSignature`
unfoldable pub calculate_fawry_charge_signature :
    (Text → Text)
    → (merchant_code merchant_ref_num customer_profile_id payment_method amount secure_key : Text)
    → Text
calculate_fawry_charge_signature sha256 merchant_code merchant_ref_num customer_profile_id
      payment_method amount secure_key =
    sha256 (
      merchant_code ++ merchant_ref_num ++ customer_profile_id ++ payment_method ++ amount
      ++ secure_key)

-- `verifyFawrySignature`
unfoldable pub verify_fawry_signature :
    (Text → Text)
    → (fawry_ref_number merchant_ref_num payment_amount order_status secure_key received : Text)
    → Bool
unfolding verify_fawry_webhook_signature
verify_fawry_signature sha256 fawry_ref_number merchant_ref_num payment_amount order_status
      secure_key received =
    verify_fawry_webhook_signature sha256
      (record {
        fawry_ref_number = fawry_ref_number;
        merchant_ref_number = merchant_ref_num;
        payment_amount = payment_amount;
        order_amount = payment_amount;
        order_status = order_status;
        payment_method = codes "PAYATFAWRY";
        payment_reference_number = none;
      })
      secure_key received

pub record FawryConfig : Type 0 where
  pub merchant_code : Text
  pub secure_key : Text
  pub base_url : Text

abbrev both_set : Option Text → Option Text → (Text → Text → FawryConfig) → Option FawryConfig
both_set (some a) (some b) k = if truthy a && truthy b then some (k a b) else none
both_set _ _ k = none

-- `getFawryConfig()` with no override.
unfoldable pub get_fawry_config : (Text → Option Text) → Option FawryConfig
get_fawry_config env =
    both_set (env (codes "FAWRY_MERCHANT_CODE")) (env (codes "FAWRY_SECURE_KEY")) λ code key.
      record {
        merchant_code = code;
        secure_key = key;
        base_url =
            or_text (env (codes "FAWRY_BASE_URL")) (codes "https://atfawry.fawrystaging.com");
      }

pub record PaymobConfig : Type 0 where
  pub secret_key : Text
  pub public_key : Text
  pub hmac_secret : Text
  pub integration_ids : List Text
  pub notification_url : Option Text
  pub base_url : Text

abbrev config_with :
    (Text → Option Text) → Option Text → Option Text → Option Text → Option PaymobConfig
config_with env (some secret) (some key) (some hmac) =
    if truthy secret && truthy key && truthy hmac
    then some (record {
      secret_key = secret;
      public_key = key;
      hmac_secret = hmac;
      integration_ids = split_list (or_text (env (codes "PAYMOB_INTEGRATION_IDS")) []);
      notification_url = env (codes "PAYMOB_NOTIFICATION_URL");
      base_url = or_text (env (codes "PAYMOB_BASE_URL")) (codes "https://accept.paymob.com");
    })
    else none
config_with env _ _ _ = none

-- `getPaymobConfig()` with no override.
unfoldable pub get_paymob_config : (Text → Option Text) → Option PaymobConfig
get_paymob_config env =
    config_with env (env (codes "PAYMOB_SECRET_KEY")) (env (codes "PAYMOB_PUBLIC_KEY"))
      (env (codes "PAYMOB_HMAC_SECRET"))

-- The fields of a transaction that Paymob signs, each as its path.
abbrev hmac_fields : List (List Text)
hmac_fields =
    (codes "amount_cents" ∷ [])
    ∷ (codes "created_at" ∷ [])
    ∷ (codes "currency" ∷ [])
    ∷ (codes "error_occured" ∷ [])
    ∷ (codes "has_parent_transaction" ∷ [])
    ∷ (codes "id" ∷ [])
    ∷ (codes "integration_id" ∷ [])
    ∷ (codes "is_3d_secure" ∷ [])
    ∷ (codes "is_auth" ∷ [])
    ∷ (codes "is_capture" ∷ [])
    ∷ (codes "is_refunded" ∷ [])
    ∷ (codes "is_standalone_payment" ∷ [])
    ∷ (codes "is_voided" ∷ [])
    ∷ (codes "order" ∷ codes "id" ∷ [])
    ∷ (codes "owner" ∷ [])
    ∷ (codes "pending" ∷ [])
    ∷ (codes "source_data" ∷ codes "pan" ∷ [])
    ∷ (codes "source_data" ∷ codes "sub_type" ∷ [])
    ∷ (codes "source_data" ∷ codes "type" ∷ [])
    ∷ (codes "success" ∷ [])
    ∷ []

-- `current?.[p]` along a path.
walk : Option Json → List Text → Option Json
unfolding get
walk v [] = v
walk none (p ∷ ps) = walk none ps
walk (some v) (p ∷ ps) = walk (get v p) ps

-- `value !== undefined && value !== null ? String(value) : ""`
abbrev shown_value : Option Json → Text
shown_value none = []
shown_value (some null) = []
shown_value (some v) = to_string v

-- `payload.obj || payload`
unfoldable pub transaction_of : Json → Json
unfolding get
transaction_of payload =
    if truthy_field (get payload (codes "obj"))
    then or_default (get payload (codes "obj")) payload
    else payload

unfoldable pub signed_text : Json → Text
unfolding walk concat to_string transaction_of
signed_text payload =
    concat (map (λ path. shown_value (walk (some (transaction_of payload)) path)) hmac_fields)

unfoldable pub verify_paymob_hmac : (Text → Text → Text) → Json → Text → Text → Bool
unfolding signed_text constant_time_eq_hex
verify_paymob_hmac hmac_sha512 payload received secret =
    constant_time_eq_hex (hmac_sha512 secret (signed_text payload)) received
