-- ===== src/Sdk/Checks.antt =====
-- The argument checks of sdk/typescript/src/client.ts.
use openwrapper.Prelude.{
  ℕ, ◌-◌, ◌^◌, Bool, not, ◌&&◌, ◌||◌, Option, none, some, ◌++◌, leb, ltb, ◌==◌, if◌then◌else◌,
  every, length, drop,
}
use openwrapper.Js.Text.{Text, codes, ◌===◌, truthy, starts_with, ends_with, strip_slashes}
use openwrapper.Gateway.Bridge.{Url}

-- The exceptions of JavaScript that the checks throw.
pub data Refusal : Type 0 where
  type_error range_error : Refusal

-- A JavaScript number as the checks see it: a natural number, or any other number.
pub data Number : Type 0 where
  natural : ℕ → Number
  other : Number

abbrev pub max_safe_integer : ℕ
max_safe_integer = 2 ^ 53 - 1

-- `validatePositiveInteger`: none where it passes.
unfoldable pub validate_positive_integer : Number → Option Refusal
validate_positive_integer (natural n) =
    if leb n max_safe_integer && leb 1 n then none else some range_error
validate_positive_integer other = some range_error

-- The check of an amount before a payment or a refund.
unfoldable pub validate_amount : Number → Option Refusal
unfolding validate_positive_integer
validate_amount other = some range_error
validate_amount (natural n) = elim (validate_positive_integer (natural n)) [
  | some e ↦ some e
  | none ↦ if ltb 1_000_000_000 n then some range_error else none
]

-- `[!#-~]`
abbrev pub is_key_char : ℕ → Bool
is_key_char c = c == b'!' || (leb b'#' c && leb c b'~')

-- `validateIdempotencyKey`
unfoldable pub validate_idempotency_key : Text → Option Refusal
unfolding every
validate_idempotency_key value =
    if ltb (length value) 1
      || ltb 200 (length value)
      || not (every is_key_char value && truthy value)
    then some type_error
    else none

abbrev is_http : Url → Bool
is_http u = u.protocol === codes "http:" || u.protocol === codes "https:"

-- `normalizeBaseUrl`, over the URL that `new URL(raw)` gives; none is a TypeError.
unfoldable pub normalize_base_url : Option Url → Option Text
unfolding strip_slashes ◌===◌
normalize_base_url none = none
normalize_base_url (some u) =
    if not (is_http u) || truthy u.username || truthy u.password
    then none
    else if truthy u.search || truthy u.hash
    then none
    else some (strip_slashes u.href)

-- `urlFor`
unfoldable pub url_for : Text → Text → Text
unfolding ends_with starts_with
url_for base_url path =
    if ends_with base_url (codes "/v1") && starts_with path (codes "/v1/")
    then base_url ++ drop 3 path
    else base_url ++ path
