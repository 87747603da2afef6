-- ===== src/Payments/Input.antt =====
-- `paymentInputSchema` of apps/web/app/api/[version]/payments/route.ts: the body of a request as the
-- schema accepts it. The tests of an e-mail address and of an HTTP(S) URL are arguments.
use openwrapper.Prelude.{
  ℕ, Bool, true, false, not, ◌&&◌, ◌||◌, Option, none, some, List, [], ◌∷◌, leb, ◌==◌, every,
  length, keep,
}
use openwrapper.Js.Text.{Text, codes, trim, to_lower, to_upper, member}
use openwrapper.Js.Json.{Json, null, int, str, arr, obj, nil, Fields, end, field, lookup}

infixl 5 ◌>>=◌ ◌>>◌
abbrev ◌>>=◌ : {A B : Type 0} → Option A → (A → Option B) → Option B
none >>= f = none
some a >>= f = f a

abbrev ◌>>◌ : {A B : Type 0} → Option A → Option B → Option B
m >> k = m >>= λ _. k

abbrev check : Bool → Option (Unit {0})
check true = some tt
check false = none

-- The control characters that `sanitize` takes out.
abbrev pub is_control : ℕ → Bool
is_control c = leb c 8 || c == 0x0B || c == 0x0C || (leb 0x0E c && leb c 0x1F) || c == 0x7F

unfoldable pub sanitize : Text → Text
unfolding keep
sanitize s = keep (λ c. not (is_control c)) s

abbrev text_of : Json → Option Text
text_of (str s) = some s
text_of _ = none

-- `boundedString(max)`: the length is tested before control characters go.
unfoldable pub bounded_string : ℕ → Json → Option Text
unfolding sanitize trim
bounded_string max v = do s ← text_of v; check (leb (length (trim s)) max); some (sanitize (trim s))

-- `.nullable().optional()`, `.optional()` and `.default(d)`
abbrev pub nullish : {A : Type 0} → (Json → Option A) → Option Json → Option (Option A)
nullish p none = some none
nullish p (some null) = some none
nullish p (some v) = do a ← p v; some (some a)

abbrev optional : {A : Type 0} → (Json → Option A) → Option Json → Option (Option A)
optional p none = some none
optional p (some v) = do a ← p v; some (some a)

abbrev defaulted : {A : Type 0} → A → (Json → Option A) → Option Json → Option A
defaulted d p none = some d
defaulted d p (some v) = p v

abbrev required : {A : Type 0} → (Json → Option A) → Option Json → Option A
required p none = none
required p (some v) = p v

-- `amountSchema`
unfoldable pub amount_schema : Json → Option ℕ
amount_schema (int n) = do check (leb 1 n && leb n 2_147_483_647); some n
amount_schema _ = none

abbrev providers : List Text
providers = codes "paymob" ∷ codes "fawry" ∷ codes "stripe" ∷ codes "mock" ∷ []

unfoldable pub provider_schema : Json → Option Text
unfolding bounded_string to_lower member
provider_schema v = do
  s ← bounded_string 20 v
  check (member providers (to_lower s))
  some (to_lower s)

abbrev is_capital : ℕ → Bool
is_capital c = leb b'A' c && leb c b'Z'

unfoldable pub currency_schema : Json → Option Text
unfolding bounded_string to_upper every
currency_schema v = do
  s ← bounded_string 3 v
  check (length (to_upper s) == 3 && every is_capital (to_upper s))
  some (to_upper s)

abbrev pub phone_schema : Json → Option Text
phone_schema v = do s ← bounded_string 32 v; check (leb 3 (length s)); some s

-- `z.string().trim().email().max(254)` and `httpUrl`, with the test that the library makes.
abbrev pub tested_string : ℕ → (Text → Bool) → Json → Option Text
tested_string max good v = do
  s ← text_of v
  check (good (trim s) && leb (length (trim s)) max)
  some (trim s)

-- `z.record(z.string().max(64), z.string().max(1000))`
unfoldable pub entries_schema : Fields → Option (List (Text × Text))
entries_schema end = some []
entries_schema (field k v fs) = do
  s ← text_of v
  check (leb (length k) 64 && leb (length s) 1000)
  rest ← entries_schema fs
  some ((k, s) ∷ rest)

unfoldable pub metadata_schema : Json → Option (List (Text × Text))
unfolding entries_schema
metadata_schema (arr nil) = some []
metadata_schema (obj fs) = do es ← entries_schema fs; check (leb (length es) 50); some es
metadata_schema _ = none

pub record Customer : Type 0 where
  pub phone : Text
  pub email : Option Text
  pub full_name : Option Text
  pub full_name_camel : Option Text

pub record PaymentInput : Type 0 where
  pub provider : Text
  pub amount_minor_units : Option ℕ
  pub amount : Option ℕ
  pub currency : Text
  pub customer : Customer
  pub merchant_reference : Option Text
  pub merchant_reference_camel : Option Text
  pub description : Option Text
  pub return_url : Option Text
  pub return_url_camel : Option Text
  pub metadata : Option (List (Text × Text))

module _ (is_email is_http_url : Text → Bool) where
  abbrev pub customer_schema : Json → Option Customer
  customer_schema (obj fs) = do
    phone ← required phone_schema (lookup (codes "phone") fs)
    email ← nullish (tested_string 254 is_email) (lookup (codes "email") fs)
    full_name ← nullish (bounded_string 200) (lookup (codes "full_name") fs)
    camel ← nullish (bounded_string 200) (lookup (codes "fullName") fs)
    some (record { phone = phone; email = email; full_name = full_name; full_name_camel = camel })
  customer_schema _ = none

  -- `paymentInputSchema.safeParse(rawJson)`
  unfoldable pub parse_payment_input : Json → Option PaymentInput
  unfolding provider_schema currency_schema amount_schema metadata_schema bounded_string lookup
  parse_payment_input (obj fs) = do
    provider ← defaulted (codes "paymob") provider_schema (lookup (codes "provider") fs)
    minor ← optional amount_schema (lookup (codes "amount_minor_units") fs)
    amount ← optional amount_schema (lookup (codes "amount") fs)
    currency ← defaulted (codes "EGP") currency_schema (lookup (codes "currency") fs)
    customer ← required customer_schema (lookup (codes "customer") fs)
    reference ← nullish (bounded_string 255) (lookup (codes "merchant_reference") fs)
    reference_camel ← nullish (bounded_string 255) (lookup (codes "merchantReference") fs)
    description ← nullish (bounded_string 500) (lookup (codes "description") fs)
    url ← nullish (tested_string 2048 is_http_url) (lookup (codes "return_url") fs)
    url_camel ← nullish (tested_string 2048 is_http_url) (lookup (codes "returnUrl") fs)
    metadata ← nullish metadata_schema (lookup (codes "metadata") fs)
    some (record {
      provider = provider;
      amount_minor_units = minor;
      amount = amount;
      currency = currency;
      customer = customer;
      merchant_reference = reference;
      merchant_reference_camel = reference_camel;
      description = description;
      return_url = url;
      return_url_camel = url_camel;
      metadata = metadata;
    })
  parse_payment_input _ = none
