-- ===== src/Gateway/Headers.antt =====
-- `buildForwardHeaders` of apps/web/lib/gateway-bridge.ts. A headers object is its entries in order.
use openwrapper.Prelude.{Bool, ◌||◌, Option, none, some, List, [], ◌∷◌, ◌++◌, if◌then◌else◌, any}
use openwrapper.Js.Text.{
  Text, codes, ◌===◌, present, truthy, is_text, lower_opt, to_lower, starts_with,
}

abbrev pub Entries : Type 0
Entries = List (Text × Text)

unfoldable pub entry : Text → Entries → Option Text
unfolding ◌===◌
entry k [] = none
entry k ((j, v) ∷ es) = if j === k then some v else entry k es

-- `headers[k] = v`
unfoldable pub assign : Text → Text → Entries → Entries
unfolding ◌===◌
assign k v [] = (k, v) ∷ []
assign k v ((j, w) ∷ es) = if j === k then (j, v) ∷ es else (j, w) ∷ assign k v es

abbrev forwarded_header_prefixes : List Text
forwarded_header_prefixes =
    codes "x-paymob-"
    ∷ codes "x-fawry-"
    ∷ codes "x-stripe-"
    ∷ codes "x-mock-"
    ∷ codes "x-openwrapper-"
    ∷ []

unfoldable pub is_forwarded : Text → Bool
unfolding any starts_with to_lower
is_forwarded key = any (λ prefix. starts_with (to_lower key) prefix) forwarded_header_prefixes

-- The loop over `incomingHeaders.entries()`.
unfoldable pub copy_forwarded : Entries → Entries → Entries
unfolding is_forwarded assign
copy_forwarded [] headers = headers
copy_forwarded ((k, v) ∷ es) headers =
    copy_forwarded es (if is_forwarded k then assign k v headers else headers)

abbrev is_test_key : Text → Bool
is_test_key key =
    starts_with key (codes "ow_test_")
    || key === codes "ow_test_sandbox_demo"
    || key === codes "ow_demo_sandbox_key"

abbrev with_key : Option Text → Entries → Entries
with_key none headers = headers
with_key (some key) headers =
    if truthy key
    then (let authorized =
          assign (codes "X-API-Key") key
            (assign (codes "Authorization") (codes "Bearer " ++ key) headers) in
        if is_test_key key
        then assign (codes "X-OpenWrapper-Environment") (codes "test") authorized
        else authorized)
    else headers

-- `if (!headers[low] && process.env[var]) headers[name] = process.env[var]`
abbrev with_ambient : (Text → Option Text) → Text → Text → Text → Entries → Entries
with_ambient env low var name headers =
    if present (entry low headers) then headers else elim (env var) [
      | none ↦ headers
      | some v ↦ if truthy v then assign name v headers else headers
    ]

unfoldable pub build_forward_headers : (Text → Option Text) → Option Text → Entries → Entries
unfolding copy_forwarded entry assign starts_with ◌===◌ to_lower
build_forward_headers env api_key incoming =
    let own = with_key api_key ((codes "Content-Type", codes "application/json") ∷ []) in
    let copied = copy_forwarded incoming own in
    let marked =
      if is_text (lower_opt (entry (codes "x-openwrapper-environment") incoming)) (codes "test")
      then assign (codes "X-OpenWrapper-Environment") (codes "test") copied
      else copied in
    let p1 =
      with_ambient env (codes "x-paymob-secret-key") (codes "PAYMOB_SECRET_KEY")
        (codes "X-Paymob-Secret-Key") marked in
    let p2 =
      with_ambient env (codes "x-paymob-public-key") (codes "PAYMOB_PUBLIC_KEY")
        (codes "X-Paymob-Public-Key") p1 in
    let p3 =
      with_ambient env (codes "x-paymob-hmac-secret") (codes "PAYMOB_HMAC_SECRET")
        (codes "X-Paymob-Hmac-Secret") p2 in
    let p4 =
      with_ambient env (codes "x-paymob-integration-id") (codes "PAYMOB_INTEGRATION_ID")
        (codes "X-Paymob-Integration-Id") p3 in
    let f1 =
      with_ambient env (codes "x-fawry-merchant-code") (codes "FAWRY_MERCHANT_CODE")
        (codes "X-Fawry-Merchant-Code") p4 in
    let f2 =
      with_ambient env (codes "x-fawry-secure-key") (codes "FAWRY_SECURE_KEY")
        (codes "X-Fawry-Secure-Key") f1 in
    with_ambient env (codes "x-stripe-secret-key") (codes "STRIPE_SECRET_KEY")
      (codes "X-Stripe-Secret-Key") f2
