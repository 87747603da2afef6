-- ===== src/Sdk/Money.antt =====
-- `toMinorUnits` and `formatMajorUnits` of sdk/typescript/src/client.ts, on decimal text. A number
-- given to `toMinorUnits` is turned into text by `toFixed` first, which is not modelled; `BigInt` is
-- read on plain digits, and the result is the integer before `Number` rounds it beyond 2 ^ 53.
pub mod RoundTrip
use openwrapper.Prelude.{
  ◌||◌, ℕ, zero, suc, ◌+◌, ◌-◌, ◌*◌, ◌/◌, ◌%◌, ◌^◌, ◌≤◌, ◌≡◌, Bool, true, false, Option, none, some,
  List, [], ◌∷◌, ◌++◌, leb, ◌==◌, if◌then◌else◌, every, length, take, replicate,
}
use openwrapper.Js.Text.{Text, codes, starts_with, trim, split}
use openwrapper.Js.Decimal.{show, value, pad_start, is_digit}
use openwrapper.Sdk.Checks.{max_safe_integer}

-- `negsuc n` is -(n + 1)
pub data ℤ : Type 0 where
  pos : ℕ → ℤ
  negsuc : ℕ → ℤ

abbrev pub negated : ℕ → ℤ
negated zero = pos 0
negated (suc n) = negsuc n

abbrev pub abs : ℤ → ℕ
abs (pos n) = n
abs (negsuc n) = suc n

abbrev pub is_negative : ℤ → Bool
is_negative (pos _) = false
is_negative (negsuc _) = true

-- `BigInt(s || "0")`, none where it throws.
unfoldable pub big_int : Text → Option ℕ
unfolding every value
big_int s = if every is_digit s then some (value 0 s) else none

-- `raw.replace(/^[+-]/, "")`
abbrev pub drop_sign : Text → Text
drop_sign [] = []
drop_sign (c ∷ s) = if c == b'+' || c == b'-' then s else c ∷ s

abbrev pub part : ℕ → List Text → Text
part n [] = []
part zero (s ∷ ss) = s
part (suc n) (s ∷ ss) = part n ss

-- `s.padEnd(decimals, "0").slice(0, decimals)`
unfoldable pub fraction_digits : ℕ → Text → Text
fraction_digits decimals s = take decimals (s ++ replicate (decimals - length s) b'0')

abbrev pub combine : Bool → ℕ → Option ℕ → Option ℕ → Option ℤ
combine negative decimals none frac = none
combine negative decimals (some whole) none = none
combine negative decimals (some whole) (some frac) = some (
    if negative then negated (whole * 10 ^ decimals + frac) else pos (whole * 10 ^ decimals + frac))

-- `toMinorUnits`, none where `BigInt` throws.
unfoldable pub to_minor_units : Text → ℕ → Option ℤ
to_minor_units amount decimals =
    let raw = trim amount in
    let parts = split b'.' (drop_sign raw) in
    combine (starts_with raw (codes "-")) decimals (big_int (part 0 parts))
      (big_int (fraction_digits decimals (part 1 parts)))

abbrev pub sign_text : ℤ → Text
sign_text n = if is_negative n then codes "-" else []

-- `formatMajorUnits`, none where the number is not a safe integer.
unfoldable pub format_major_units : ℤ → ℕ → Option Text
format_major_units n decimals =
    if leb (abs n) max_safe_integer
    then if decimals == 0
      then some (sign_text n ++ show (abs n))
      else some (
          sign_text n
          ++ (show (abs n / 10 ^ decimals)
              ++ (codes "." ++ pad_start decimals (show (abs n % 10 ^ decimals)))))
    else none
