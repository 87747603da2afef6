-- ===== src/Sdk/Errors.antt =====
-- sdk/typescript/src/errors.ts: the classes of exceptions, and the one that an error body stands for.
use openwrapper.Prelude.{ℕ, ◌≡◌, refl, Bool, true, false, List, [], ◌∷◌, if◌then◌else◌}
use openwrapper.Js.Text.{Text, codes, ◌===◌}

-- The classes that extend `OpenWrapperError`.
pub data ErrorClass : Type 0 where
  validation_error idempotency_conflict_error authentication_error authorization_error : ErrorClass
  configuration_error network_error timeout_error provider_error rate_limit_error : ErrorClass
  unsupported_capability_error security_error internal_error unknown_outcome_error : ErrorClass
  gateway_unreachable_error gateway_timeout_error : ErrorClass

-- The `code` of each class.
abbrev pub code_of : ErrorClass → Text
code_of validation_error = codes "validation_error"
code_of idempotency_conflict_error = codes "idempotency_conflict"
code_of authentication_error = codes "authentication_error"
code_of authorization_error = codes "authorization_error"
code_of configuration_error = codes "configuration_error"
code_of network_error = codes "network_error"
code_of timeout_error = codes "timeout"
code_of provider_error = codes "provider_error"
code_of rate_limit_error = codes "rate_limit"
code_of unsupported_capability_error = codes "unsupported_capability"
code_of security_error = codes "security_error"
code_of internal_error = codes "internal_error"
code_of unknown_outcome_error = codes "unknown_outcome"
code_of gateway_unreachable_error = codes "gateway_unreachable"
code_of gateway_timeout_error = codes "gateway_timeout"

pub record SdkError : Type 0 where
  pub class : ErrorClass
  pub message : Text
  pub http_status : ℕ

-- `CODE_TO_CLASS`
abbrev code_to_class : List (Text × ErrorClass)
code_to_class =
    (codes "validation_error", validation_error)
    ∷ (codes "authentication_error", authentication_error)
    ∷ (codes "authorization_error", authorization_error)
    ∷ (codes "configuration_error", configuration_error)
    ∷ (codes "network_error", network_error)
    ∷ (codes "timeout", timeout_error)
    ∷ (codes "timeout_error", timeout_error)
    ∷ (codes "provider_error", provider_error)
    ∷ (codes "rate_limit", rate_limit_error)
    ∷ (codes "rate_limit_error", rate_limit_error)
    ∷ (codes "unsupported_capability", unsupported_capability_error)
    ∷ (codes "security_error", security_error)
    ∷ (codes "internal_error", internal_error)
    ∷ (codes "unknown_outcome", unknown_outcome_error)
    ∷ (codes "invalid_request", validation_error)
    ∷ (codes "idempotency_conflict", idempotency_conflict_error)
    ∷ (codes "missing_provider_credentials", validation_error)
    ∷ (codes "not_found", validation_error)
    ∷ (codes "unauthorized", authorization_error)
    ∷ []

-- `CODE_TO_CLASS[code] ?? InternalError`; names of `Object.prototype` are not codes here.
find_class : Text → List (Text × ErrorClass) → ErrorClass
find_class code [] = internal_error
find_class code ((k, c) ∷ rest) = if code === k then c else find_class code rest

unfoldable pub class_of : Text → ErrorClass
unfolding find_class ◌===◌
class_of code = find_class code code_to_class

-- `errorFromBody`
unfoldable pub error_from_body : Text → Text → ℕ → SdkError
unfolding class_of
error_from_body code message http_status = record {
  class = class_of code;
  message = message;
  http_status = http_status;
}

-- The classes that the SDK makes itself, when it does not reach the gateway.
abbrev pub is_client_side : ErrorClass → Bool
is_client_side gateway_unreachable_error = true
is_client_side gateway_timeout_error = true
is_client_side _ = false

class_of-code_of : (c : ErrorClass) → is_client_side c ≡ false → class_of (code_of c) ≡ c
unfolding class_of
class_of-code_of validation_error h = refl
class_of-code_of gateway_unreachable_error h = cc
class_of-code_of gateway_timeout_error h = cc
class_of-code_of _ h = refl

-- The code of every class that the server can name is read back as that class, with the message and
-- the status of the response; the two client-side classes are excepted.
error_from_body-code_of :
    (c : ErrorClass) (message : Text) (http_status : ℕ)
    → is_client_side c ≡ false
    → error_from_body (code_of c) message http_status
      ≡ record { class = c; message = message; http_status = http_status }
unfolding error_from_body
error_from_body-code_of c message http_status h = rw (class_of-code_of c h)
