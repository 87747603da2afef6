-- ===== src/Sdk/Signature.antt =====
-- The webhook signatures that merchants receive: `webhooks` of sdk/typescript/src/client.ts, and
-- `signWebhookPayload` of apps/web/lib/merchant-settings-service.ts. HMAC-SHA-256 in hex (secret, then
-- text) and the clock in seconds are arguments.
pub mod RoundTrip
use openwrapper.Prelude.{
  ℕ, zero, suc, ◌+◌, ◌-◌, ◌*◌, Bool, true, false, not, ◌&&◌, ◌||◌, Option, none, some, List, [],
  ◌∷◌, ◌++◌, ltb, leb, ◌==◌, if◌then◌else◌, any,
}
use openwrapper.Js.Text.{Text, codes, ◌===◌, trim, split}
use openwrapper.Js.Decimal.{show, value, is_digit}

-- `computeSignature`
unfoldable pub compute_signature : (Text → Text → Text) → Text → Text → ℕ → Text
compute_signature hmac payload secret timestamp =
    hmac secret (show timestamp ++ (codes "." ++ payload))

-- What `signWebhookPayload` returns.
pub record Signed : Type 0 where
  pub timestamp : ℕ
  pub signature : Text
  pub header : Text

unfoldable pub sign_webhook_payload : (Text → Text → Text) → ℕ → Text → Text → Signed
sign_webhook_payload hmac now payload secret =
    let digest = hmac secret (show now ++ (codes "." ++ payload)) in
    record {
      timestamp = now;
      signature = digest;
      header = codes "t=" ++ (show now ++ (codes ",v1=" ++ digest));
    }

-- The digits that `parseInt(s, 10)` reads; none is NaN. A sign in front is not modelled: it gives none.
leading_digits : Text → Text
leading_digits [] = []
leading_digits (c ∷ s) = if is_digit c then c ∷ leading_digits s else []

abbrev number_of : Text → Option ℕ
number_of [] = none
number_of (c ∷ s) = some (value 0 (c ∷ s))

unfoldable pub parse_int : Text → Option ℕ
unfolding leading_digits value
parse_int s = number_of (leading_digits s)

-- The two variables of the loop over the header's items.
pub record Scan : Type 0 where
  pub timestamp : Option ℕ
  pub signatures : List Text

abbrev read_parts : List Text → Scan → Scan
read_parts (key ∷ val ∷ []) c =
    if trim key === codes "t"
    then record c { timestamp = parse_int (trim val) }
    else if trim key === codes "v1"
    then record c { signatures = c.signatures ++ trim val ∷ [] }
    else c
read_parts _ c = c

scan : List Text → Scan → Scan
unfolding split trim parse_int ◌===◌
scan [] c = c
scan (item ∷ items) c = scan items (read_parts (split b'=' item) c)

abbrev nothing_read : Scan
nothing_read = record { timestamp = none; signatures = [] }

-- `Buffer.from(s, "hex")`: pairs of hex digits, up to the first that is not one.
abbrev hex_value : ℕ → Option ℕ
hex_value c =
    if is_digit c
    then some (c - b'0')
    else if leb b'a' c && leb c b'f'
    then some (c - b'a' + 10)
    else if leb b'A' c && leb c b'F'
    then some (c - b'A' + 10)
    else none

abbrev byte : Option ℕ → Option ℕ → List ℕ → List ℕ
byte (some a) (some b) rest = (16 * a + b) ∷ rest
byte _ _ rest = []

unfoldable pub from_hex : Text → List ℕ
from_hex (a ∷ b ∷ s) = byte (hex_value a) (hex_value b) (from_hex s)
from_hex _ = []

-- `Math.abs(now - timestamp) > toleranceSeconds`, where the tolerance is positive.
abbrev pub is_stale : ℕ → ℕ → ℕ → Bool
is_stale tolerance now timestamp =
    ltb 0 tolerance && (ltb tolerance (now - timestamp) || ltb tolerance (timestamp - now))

abbrev is_empty : List Text → Bool
is_empty [] = true
is_empty (_ ∷ _) = false

-- The loop over the signatures: equal lengths and `timingSafeEqual`, which is equality of the bytes.
abbrev any_matches : Text → List Text → Bool
any_matches expected signatures = any (λ (s : Text). from_hex s === from_hex expected) signatures

module _ (hmac : Text → Text → Text) (now : ℕ) (payload secret : Text) (tolerance : ℕ) where
  abbrev judge : Scan → Option ℕ → Bool
  judge c none = false
  judge c (some timestamp) =
      if timestamp == 0 || is_empty c.signatures
      then false
      else if is_stale tolerance now timestamp
      then false
      else any_matches (compute_signature hmac payload secret timestamp) c.signatures

  -- `verifySignature`
  unfoldable pub verify_signature : Text → Bool
  unfolding scan split compute_signature any from_hex ◌===◌
  verify_signature header = let c = scan (split b',' header) nothing_read in judge c c.timestamp
