-- ===== src/Sdk/Signature/RoundTrip.antt =====
-- A payload signed by `signWebhookPayload` is accepted by `verifySignature`.
use openwrapper.Prelude.{
  ◌==◌, false, List, inr, true, ◌+◌, ◌++◌, ◌∙◌, any, inl, ap, sym, ◌⊎◌, ℕ, ◌≤◌, ◌<◌, ◌≡◌, ◌≢◌, refl,
  some, [], ◌∷◌, arith, All,
}
use openwrapper.Js.Text.{===_refl, ◌===◌, codes, trim, split, Text, is_space}
use openwrapper.Js.Text.Laws.{split-Lacks, split-append, trim-All, Lacks, IsVisible}
use openwrapper.Js.Decimal.{show-IsDigit, value-show, show, value, IsDigit}
use openwrapper.Sdk.Signature.{
  judge, is_stale, read_parts, Scan, nothing_read, compute_signature, sign_webhook_payload, scan,
  verify_signature, parse_int, leading_digits, number_of,
}

-- A lower-case hex digit.
abbrev pub IsHex : ℕ → Type 0
IsHex c = IsDigit c ⊎ ((b'a' ≤ c) × (c ≤ b'f'))

All-map : (P Q : ℕ → Type 0) (s : Text) → ((c : ℕ) → P c → Q c) → All P s → All Q s
All-map P Q [] f h = tt
All-map P Q (c ∷ s) f (p, h) = (f c p, All-map P Q s f h)

hex-IsVisible : (c : ℕ) → IsHex c → IsVisible c
unfolding is_space
hex-IsVisible c h = ground arith

hex-plain : (sep c : ℕ) → sep < b'0' ⊎ sep ≡ b'=' → IsHex c → c ≢ sep
hex-plain sep c s h e = ground arith

leading_digits-All : (s : Text) → All IsDigit s → leading_digits s ≡ s
unfolding leading_digits
leading_digits-All [] h = refl
leading_digits-All (c ∷ s) (d, h) = ground (arith, leading_digits-All s h)

number_of-value : (s : Text) → s ≢ [] → number_of s ≡ some (value 0 s)
number_of-value [] h = absurd (h refl)
number_of-value (c ∷ s) h = refl

show-filled : (n : ℕ) → n ≢ 0 → show n ≢ []
unfolding value
show-filled n ne e = ne (sym (value-show n) ∙ ap (value 0) e)

parse_int-show : (n : ℕ) → n ≢ 0 → parse_int (show n) ≡ some n
unfolding parse_int
parse_int-show n ne =
    ap number_of (leading_digits-All (show n) (show-IsDigit n))
    ∙ number_of-value (show n) (show-filled n ne)
    ∙ ap some (value-show n)

show-IsHex : (n : ℕ) → All IsHex (show n)
show-IsHex n = All-map IsDigit IsHex (show n) (λ c d. inl d) (show-IsDigit n)

hex-Lacks : (sep : ℕ) (s : Text) → (sep < b'0' ⊎ sep ≡ b'=') → All IsHex s → Lacks sep s
hex-Lacks sep s t h = All-map IsHex (λ c. c ≢ sep) s (λ c. hex-plain sep c t) h

-- An item `key=value` of the header.
split-item :
    (key val : Text)
    → Lacks b'=' key
    → All IsHex val
    → split b'=' (key ++ b'=' ∷ val) ≡ key ∷ val ∷ []
split-item key val k h =
    split-append b'=' key val k
    ∙ ap (λ r. key ∷ r) (split-Lacks b'=' val (hex-Lacks b'=' val (inr refl) h))

trim-hex : (s : Text) → All IsHex s → trim s ≡ s
trim-hex s h = trim-All s (All-map IsHex IsVisible s hex-IsVisible h)

trim_t : trim (codes "t") ≡ codes "t"
unfolding is_space
trim_t = trim-All (codes "t") (refl, tt)

trim_v1 : trim (codes "v1") ≡ codes "v1"
unfolding is_space
trim_v1 = trim-All (codes "v1") (refl, (refl, tt))

split-header :
    (shown digest : Text)
    → All IsHex shown
    → All IsHex digest
    → split b',' (codes "t=" ++ (shown ++ (codes ",v1=" ++ digest)))
      ≡ (codes "t" ++ b'=' ∷ shown) ∷ (codes "v1" ++ b'=' ∷ digest) ∷ []
split-header shown digest s d =
    split-append b',' (codes "t" ++ b'=' ∷ shown) (codes "v1" ++ b'=' ∷ digest)
      ((λ e. omega arith), ((λ e. omega arith), hex-Lacks b',' shown (inl (omega arith)) s))
    ∙ ap (λ r. (codes "t" ++ b'=' ∷ shown) ∷ r)
        (split-Lacks b',' (codes "v1" ++ b'=' ∷ digest) (
          (λ e. omega arith),
          ((λ e. omega arith), ((λ e. omega arith), hex-Lacks b',' digest (inl (omega arith)) d)),
        ))

scan-cons :
    (item : Text) (items : List Text) (c : Scan)
    → scan (item ∷ items) c ≡ scan items (read_parts (split b'=' item) c)
unfolding scan
scan-cons item items c = refl

scan-nil : (c : Scan) → scan [] c ≡ c
unfolding scan
scan-nil c = refl

read_parts-t :
    (val : Text) (n : ℕ) (c : Scan)
    → trim val ≡ val
    → parse_int val ≡ some n
    → read_parts (codes "t" ∷ val ∷ []) c ≡ record { timestamp = some n; signatures = c.signatures }
unfolding ◌===◌
read_parts-t val n c t e = rw (trim_t, t, e) refl

read_parts-v1 :
    (val : Text) (c : Scan)
    → trim val ≡ val
    → read_parts (codes "v1" ∷ val ∷ []) c
      ≡ record { timestamp = c.timestamp; signatures = c.signatures ++ val ∷ [] }
unfolding ◌===◌
read_parts-v1 val c t = rw (trim_v1, t) refl

scan-header :
    (now : ℕ) (digest : Text)
    → now ≢ 0
    → All IsHex digest
    → scan ((codes "t" ++ b'=' ∷ show now) ∷ (codes "v1" ++ b'=' ∷ digest) ∷ []) nothing_read
      ≡ record { timestamp = some now; signatures = digest ∷ [] }
scan-header now digest ne d =
    rw
      (
        scan-cons,
        scan-cons,
        scan-nil,
        split-item (codes "t") (show now) ((λ e. omega arith), tt) (show-IsHex now),
        split-item (codes "v1") digest ((λ e. omega arith), ((λ e. omega arith), tt)) d,
        read_parts-t (show now) now nothing_read (trim-hex (show now) (show-IsHex now))
            (parse_int-show now ne),
        read_parts-v1 digest (record { timestamp = some now; signatures = [] }) (trim-hex digest d),
      )
      refl

verify_signature-scanned :
    (hmac : Text → Text → Text) (now : ℕ) (payload secret : Text) (tolerance : ℕ) (header : Text)
    (c : Scan)
    → scan (split b',' header) nothing_read ≡ c
    → verify_signature hmac now payload secret tolerance header
      ≡ judge hmac now payload secret tolerance c c.timestamp
unfolding verify_signature
verify_signature-scanned hmac now payload secret tolerance header c e =
    ap (λ (x : Scan). judge hmac now payload secret tolerance x x.timestamp) e

-- One signature, of the timestamp that is signed, is accepted while it is fresh.
judge-signed :
    (hmac : Text → Text → Text) (now : ℕ) (payload secret : Text) (tolerance signed_at : ℕ)
    → signed_at ≢ 0
    → is_stale tolerance now signed_at ≡ false
    → judge hmac now payload secret tolerance
        (record {
          timestamp = some signed_at;
          signatures = compute_signature hmac payload secret signed_at ∷ [];
        })
        (some signed_at)
      ≡ true
unfolding any
judge-signed hmac now payload secret tolerance signed_at ne fresh =
    let past_zero : signed_at == 0 ≡ false = ground arith in rw (past_zero, fresh, ===_refl) refl

-- A payload that the dashboard signs with a secret is accepted by the SDK with the same secret while
-- the signature is at most `tolerance` seconds old (or of any age, if the tolerance is 0), if the
-- clock at the signing was past second 0 and HMAC is in lower-case hex.
pub verify_signature-sign_webhook_payload :
    (hmac : Text → Text → Text) (signed_at now tolerance : ℕ) (payload secret : Text)
    → ((key text : Text) → All IsHex (hmac key text))
    → signed_at ≢ 0
    → signed_at ≤ now
    → now ≤ signed_at + tolerance ⊎ tolerance ≡ 0
    → verify_signature hmac now payload secret tolerance
        (sign_webhook_payload hmac signed_at payload secret).header
      ≡ true
unfolding sign_webhook_payload compute_signature
verify_signature-sign_webhook_payload hmac signed_at now tolerance payload secret hex ne past
      fresh =
    let digest = hmac secret (show signed_at ++ (codes "." ++ payload)) in
    verify_signature-scanned hmac now payload secret tolerance _
      (record { timestamp = some signed_at; signatures = digest ∷ [] })
      (ap (λ items. scan items nothing_read)
          (split-header (show signed_at) digest (show-IsHex signed_at) (hex secret _))
        ∙ scan-header signed_at digest ne (hex secret _))
    ∙ judge-signed hmac now payload secret tolerance signed_at ne (ground arith)
