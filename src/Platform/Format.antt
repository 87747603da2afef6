-- ===== src/Platform/Format.antt =====
-- Amounts as text in apps/web/lib/utils.ts, beside `formatMajorUnits` of sdk/typescript/src/client.ts.
-- An amount is an integer.
use openwrapper.Prelude.{
  ℕ, ◌/◌, ◌%◌, ◌^◌, ◌≡◌, refl, true, some, [], ◌∷◌, ◌++◌, leb, ◌==◌, if◌then◌else◌, append_assoc,
  Bool-cases, inl, inr,
}
use openwrapper.Js.Text.{Text, codes, to_upper, member}
use openwrapper.Js.Decimal.{show, pad_start}
use openwrapper.Sdk.Checks.{max_safe_integer}
use openwrapper.Sdk.Money.{ℤ, abs, sign_text, to_minor_units, format_major_units}
use openwrapper.Sdk.Money.RoundTrip.{to_minor_units-format_major_units}

-- `getCurrencyDecimals`
unfoldable pub get_currency_decimals : Text → ℕ
unfolding to_upper member
get_currency_decimals currency =
    let c = to_upper currency in
    if member (codes "KWD" ∷ codes "BHD" ∷ codes "OMR" ∷ []) c
    then 3
    else if member (codes "JPY" ∷ codes "KRW" ∷ codes "VND" ∷ codes "CLP" ∷ []) c
    then 0
    else 2

abbrev pub unit_of : Text → Text
unit_of currency = codes " " ++ to_upper currency

-- `formatMinorUnits`, which `formatCurrency` only calls.
unfoldable pub format_minor_units : ℤ → Text → Text
unfolding get_currency_decimals to_upper show pad_start
format_minor_units n currency =
    let decimals = get_currency_decimals currency in
    if decimals == 0
    then sign_text n ++ (show (abs n) ++ unit_of currency)
    else sign_text n
      ++ (show (abs n / 10 ^ decimals)
          ++ (codes "." ++ (pad_start decimals (show (abs n % 10 ^ decimals)) ++ unit_of currency)))

-- The number in front of the currency.
abbrev number_text : ℤ → ℕ → Text
number_text n decimals =
    if decimals == 0
    then sign_text n ++ show (abs n)
    else sign_text n
      ++ (show (abs n / 10 ^ decimals)
          ++ (codes "." ++ pad_start decimals (show (abs n % 10 ^ decimals))))

format_major_units-number_text :
    (n : ℤ) (decimals : ℕ)
    → leb (abs n) max_safe_integer ≡ true
    → format_major_units n decimals ≡ some (number_text n decimals)
unfolding format_major_units
format_major_units-number_text n decimals safe = elim (Bool-cases (decimals == 0)) [
  | inl whole ↦ rw (safe, whole) refl
  | inr parts ↦ rw (safe, parts) refl
]

append_two : (a b c d : Text) → a ++ (b ++ (c ++ d)) ≡ (a ++ (b ++ c)) ++ d
append_two a b c d = rw (append_assoc a (b ++ c) d, append_assoc b c d) refl

format_minor_units-number_text :
    (n : ℤ) (currency : Text)
    → format_minor_units n currency
      ≡ number_text n (get_currency_decimals currency) ++ unit_of currency
unfolding format_minor_units
format_minor_units-number_text n currency =
    elim (Bool-cases (get_currency_decimals currency == 0)) [
      | inl whole ↦ rw (whole, append_assoc (sign_text n) (show (abs n)) (unit_of currency)) refl
      | inr parts ↦
          let d = get_currency_decimals currency in
          rw
            (
              parts,
              append_two (sign_text n) (show (abs n / 10 ^ d))
                  (codes "." ++ pad_start d (show (abs n % 10 ^ d))) (unit_of currency),
            )
            refl
    ]

-- An amount within the safe integers is shown as the client formats it, followed by the currency, and
-- the client reads the amount back from that text.
pub format_minor_units-format_major_units :
    (n : ℤ) (currency : Text)
    → leb (abs n) max_safe_integer ≡ true
    → (s : Text) × (format_major_units n (get_currency_decimals currency) ≡ some s)
      × (format_minor_units n currency ≡ s ++ unit_of currency)
      × (to_minor_units s (get_currency_decimals currency) ≡ some n)
format_minor_units-format_major_units n currency safe =
    let d = get_currency_decimals currency in
    let printed = format_major_units-number_text n d safe in
    (
      number_text n d,
      printed,
      format_minor_units-number_text n currency,
      to_minor_units-format_major_units n d (number_text n d) printed,
    )
