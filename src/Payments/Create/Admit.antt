-- ===== src/Payments/Create/Admit.antt =====
-- The first stage of `POST`: version, API key, idempotency key, body and input, up to the canonical
-- payload and its fingerprint.
use openwrapper.Prelude.{
  ℕ, zero, suc, Bool, ◌&&◌, Option, none, some, List, [], ◌∷◌, ◌++◌, if◌then◌else◌,
}
use openwrapper.Js.Text.{Text, codes, present, ◌or◌, or_text, or_default}
use openwrapper.Js.Json.{Json, null, int, str, obj, Fields, end, field}
use openwrapper.Store.{Mode, World}
use openwrapper.Store.Handler.{Handler, ◌>>=◌, ◌>>◌, pure, gets}
use openwrapper.Access.Version.{VersionCheck, valid, unsupported, validate_api_version}
use openwrapper.Access.Authenticator.{AuthKey, authenticate_api_request}
use openwrapper.Access.BodyReader.{
  BodyText, body_ok, too_large, read_limited_text_body, default_max_body_bytes,
}
use openwrapper.Signatures.Canonical.{compute_canonical_fingerprint}
use openwrapper.Payments.Api.{
  Env, Request, headers_of, ApiResponse, extract_api_token, is_test_mode, mode_of,
  is_idempotency_key, fail, log,
}
use openwrapper.Payments.Input.{PaymentInput, parse_payment_input}

-- What the later stages read of an accepted request.
pub record Admitted : Type 0 where
  pub version : Text
  pub key : AuthKey
  pub token : Option Text
  pub is_test : Bool
  pub idempotency_key : Text
  pub raw_json : Json
  pub input : PaymentInput
  pub amount_minor_units : ℕ
  pub merchant_ref : Option Text
  pub description : Text
  pub return_url : Option Text
  pub customer_name : Option Text
  pub customer_phone : Text
  pub customer_email : Option Text
  pub metadata : List (Text × Text)
  pub canonical_payload : Json
  pub fingerprint : Text

abbrev pub mode : Admitted → Mode
mode a = mode_of a.is_test

abbrev pub endpoint_of : Text → Text
endpoint_of version = codes "/api/" ++ version ++ codes "/payments"

-- `a || b || null` for optional texts: an empty text is no value.
abbrev first_of : Option Text → Option Text → Option Text
first_of a b = if present (a or b) then a or b else none

-- `data.amount_minor_units || data.amount`, 0 where neither is a positive number.
abbrev pub amount_of : Option ℕ → Option ℕ → ℕ
amount_of (some (suc n)) other = suc n
amount_of _ (some n) = n
amount_of _ none = 0

unfoldable pub metadata_fields : List (Text × Text) → Fields
metadata_fields [] = end
metadata_fields ((k, v) ∷ es) = field k (str v) (metadata_fields es)

-- An undefined field is left out, a null one is not.
abbrev optional_field : Text → Option Text → Fields → Fields
optional_field k none fs = fs
optional_field k (some s) fs = field k (str s) fs

abbrev nullable : Option Text → Json
nullable none = null
nullable (some s) = str s

module _ (provider currency : Text) (amount : ℕ) (phone : Text) (email name reference : Option Text)
    (description : Text) (return_url : Option Text) (metadata : List (Text × Text)) where
  abbrev customer_json : Json
  customer_json = obj (
      field (codes "phone") (str phone)
        (optional_field (codes "email") email (optional_field (codes "full_name") name end)))

  -- `canonicalPayload`
  unfoldable pub canonical_payload_of : Json
  unfolding metadata_fields
  canonical_payload_of = obj (
      field (codes "provider") (str provider) (
        field (codes "amount_minor_units") (int amount) (
          field (codes "currency") (str currency) (
            field (codes "customer") customer_json (
              field (codes "merchant_reference") (nullable reference) (
                field (codes "description") (str description) (
                  optional_field (codes "return_url") return_url
                    (field (codes "metadata") (obj (metadata_fields metadata)) end))))))))

abbrev pub parsed_or_null : Option Json → Json
parsed_or_null none = null
parsed_or_null (some v) = v

module _ (env : Env) where
  -- `validateApiVersion`, with its 400 response.
  abbrev pub checked_version : VersionCheck → Handler ApiResponse Text
  checked_version (valid version) = pure version
  checked_version (unsupported raw) =
      fail 400 (codes "unsupported_api_version") (
        codes "API version '" ++ raw ++ codes "' is not supported. Supported versions: v1, v2, v3.")

  abbrev pub require_key : Text → Option AuthKey → Handler ApiResponse AuthKey
  require_key message (some key) = pure key
  require_key message none = fail 401 (codes "unauthorized") message

  abbrev pub authenticate : Request → World → Option AuthKey
  authenticate r w =
      authenticate_api_request env.sql env.sha256 (env.vars (codes "OPENWRAPPER_API_KEYS"))
        (headers_of r) w

  abbrev pub require_idempotency_key :
      AuthKey → Text → Mode → Option Text → Handler ApiResponse Text
  require_idempotency_key key endpoint m given =
      if present given && is_idempotency_key (or_default given [])
      then pure (or_default given [])
      else do
        log env key (codes "POST") endpoint 400 none (some m)
        fail 400 (codes "invalid_request")
            (codes "An Idempotency-Key header (1-200 printable ASCII characters) is required.")

  abbrev pub require_body : BodyText → Handler ApiResponse Text
  require_body (body_ok text) = pure text
  require_body too_large =
      fail 413 (codes "payload_too_large") (codes "Request body must not exceed 64 KiB.")

  abbrev pub require_input :
      AuthKey → Text → Mode → Option PaymentInput → Handler ApiResponse PaymentInput
  require_input key endpoint m (some input) = pure input
  require_input key endpoint m none = do
    log env key (codes "POST") endpoint 422 none (some m)
    fail 422 (codes "validation_error") (codes "Invalid payment request payload")

  abbrev pub require_amount : ℕ → Handler ApiResponse ℕ
  require_amount zero =
      fail 422 (codes "validation_error") (codes "amount_minor_units must be a positive integer")
  require_amount (suc n) = pure (suc n)

  -- The reading of the parsed input, from `const data = parsed.data` to the fingerprint.
  unfoldable pub assemble :
      Text → AuthKey → Option Text → Bool → Text → Json → PaymentInput → ℕ → Admitted
  unfolding canonical_payload_of compute_canonical_fingerprint
  assemble version key token is_test idem raw input amount =
      let reference = first_of input.merchant_reference input.merchant_reference_camel in
      let description = or_text input.description (codes "Payment") in
      let url = first_of input.return_url input.return_url_camel in
      let name = first_of input.customer.full_name input.customer.full_name_camel in
      let email = first_of input.customer.email none in
      let metadata = or_default input.metadata [] in
      let payload =
        canonical_payload_of input.provider input.currency amount input.customer.phone email name
          reference description url metadata in
      record {
        version = version;
        key = key;
        token = token;
        is_test = is_test;
        idempotency_key = idem;
        raw_json = raw;
        input = input;
        amount_minor_units = amount;
        merchant_ref = reference;
        description = description;
        return_url = url;
        customer_name = name;
        customer_phone = input.customer.phone;
        customer_email = email;
        metadata = metadata;
        canonical_payload = payload;
        fingerprint = compute_canonical_fingerprint env.sha256 env.stringify payload;
      }

  -- The stage as a whole: everything before the lookup of the idempotency key.
  unfoldable pub admit : Request → Handler ApiResponse Admitted
  unfolding validate_api_version is_test_mode extract_api_token is_idempotency_key
      read_limited_text_body
  admit r = do
    version ← checked_version (validate_api_version r.version)
    found ← gets (authenticate r)
    key ←
        require_key
          (codes "Missing or invalid API key. Use Authorization: Bearer <key> or X-API-Key.") found
    let token = extract_api_token (headers_of r)
    let is_test = is_test_mode key (headers_of r)
    let m = mode_of is_test
    idem ←
        require_idempotency_key key (endpoint_of version) m (headers_of r (codes "idempotency-key"))
    text ← require_body (read_limited_text_body env.decode default_max_body_bytes r.body)
    let raw = parsed_or_null (env.parse_json text)
    input ←
        require_input key (endpoint_of version) m (parse_payment_input env.is_email env.is_url raw)
    amount ← require_amount (amount_of input.amount_minor_units input.amount)
    pure (assemble version key token is_test idem raw input amount)
