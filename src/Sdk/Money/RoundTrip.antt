-- ===== src/Sdk/Money/RoundTrip.antt =====
-- What `formatMajorUnits` prints, `toMinorUnits` reads back.
use native.Mathlib.Nat.{pow-suc, mod-lt}
use openwrapper.Prelude.{
  subst, append-nil, ℕ, zero, suc, ◌+◌, ◌-◌, ◌*◌, ◌/◌, ◌%◌, ◌^◌, ◌<◌, ◌≡◌, refl, ap, ◌∙◌, Bool,
  true, false, some, [], ◌∷◌, ◌++◌, arith, All, All-append, every, length, take, replicate,
}
use openwrapper.Js.Text.{Text, codes, split, starts_with, is_space}
use openwrapper.Js.Text.Laws.{Lacks, split-Lacks, split-append, IsVisible, trim-All}
use openwrapper.Js.Decimal.{show, value, pad_start, is_digit, IsDigit, value-show, show-IsDigit}
use openwrapper.Js.Decimal.Width.{length-pad_start-show, value-pad_start-show, pad_start-IsDigit}
use openwrapper.Sdk.Money.{
  ℤ, pos, negsuc, negated, abs, is_negative, big_int, drop_sign, part, fraction_digits, combine,
  to_minor_units, sign_text, format_major_units,
}

digit_visible : (c : ℕ) → IsDigit c → is_space c ≡ false
unfolding is_space
digit_visible c h = ground arith

digits-IsVisible : (s : Text) → All IsDigit s → All IsVisible s
digits-IsVisible [] h = tt
digits-IsVisible (c ∷ s) (d, h) = (digit_visible c d, digits-IsVisible s h)

digits-Lacks : (s : Text) → All IsDigit s → Lacks b'.' s
digits-Lacks [] h = tt
digits-Lacks (c ∷ s) (d, h) = (omega arith, digits-Lacks s h)

every-digits : (s : Text) → All IsDigit s → every is_digit s ≡ true
unfolding every
every-digits [] h = refl
every-digits (c ∷ s) (d, h) = ground (arith, every-digits s h)

big_int-digits : (s : Text) → All IsDigit s → big_int s ≡ some (value 0 s)
unfolding big_int
big_int-digits s h = rw (every-digits s h)

take-append : (d : ℕ) (p q : Text) → length p ≡ d → take d (p ++ q) ≡ p
take-append zero [] q h = refl
take-append zero (c ∷ p) q h = absurd (omega arith)
take-append (suc d) [] q h = absurd (omega arith)
take-append (suc d) (c ∷ p) q h = ground (arith, take-append d p q)

-- A text that begins with no sign.
abbrev IsUnsigned : Text → Type 0
IsUnsigned s = (drop_sign s ≡ s) × (starts_with s (codes "-") ≡ false)

IsUnsigned-behind : (w r : Text) → All IsDigit w → IsUnsigned r → IsUnsigned (w ++ r)
unfolding starts_with
IsUnsigned-behind [] r h u = u
IsUnsigned-behind (c ∷ w) r (d, h) u = ground arith

abbrev sign : Bool → Text
sign true = codes "-"
sign false = []

abbrev signed : Bool → ℕ → ℤ
signed true n = negated n
signed false n = pos n

minus_visible : is_space b'-' ≡ false
unfolding is_space
minus_visible = refl

starts_with_self : (p s : Text) → starts_with (p ++ s) p ≡ true
unfolding starts_with
starts_with_self [] s = refl
starts_with_self (c ∷ p) s = ground (arith, starts_with_self p s)

-- The reading of a signed text, once its digits are known to hold no white space.
read_signed :
    (negative : Bool) (d : ℕ) (s : Text)
    → All IsVisible s
    → IsUnsigned s
    → to_minor_units (sign negative ++ s) d
      ≡ combine negative d
          (big_int (part 0 (split b'.' s)))
          (big_int (fraction_digits d (part 1 (split b'.' s))))
unfolding to_minor_units
read_signed true d s v u =
    rw (trim-All (b'-' ∷ s) (minus_visible, v), starts_with_self (codes "-") s)
read_signed false d s v u = rw (trim-All s v, u.0, u.1)

point-IsUnsigned : (p : Text) → IsUnsigned (b'.' ∷ p)
unfolding starts_with
point-IsUnsigned p = (refl, refl)

-- Digits, a point and as many digits as the currency has.
read_pointed :
    (negative : Bool) (d : ℕ) (w p : Text)
    → All IsDigit w
    → All IsDigit p
    → length p ≡ d
    → to_minor_units (sign negative ++ (w ++ b'.' ∷ p)) d
      ≡ combine negative d (some (value 0 w)) (some (value 0 p))
unfolding fraction_digits
read_pointed negative d w p hw hp e =
    read_signed negative d (w ++ b'.' ∷ p)
      (All-append IsVisible w (b'.' ∷ p) (digits-IsVisible w hw)
        (unfold is_space in refl, digits-IsVisible p hp))
      (IsUnsigned-behind w (b'.' ∷ p) hw (point-IsUnsigned p))
    ∙ rw (
      split-append b'.' w p (digits-Lacks w hw),
      split-Lacks b'.' p (digits-Lacks p hp),
      big_int-digits w hw,
      take-append d p (replicate (d - length p) b'0') e,
      big_int-digits p hp,
    )

read_whole :
    (negative : Bool) (w : Text)
    → All IsDigit w
    → to_minor_units (sign negative ++ w) 0 ≡ combine negative 0 (some (value 0 w)) (some 0)
unfolding fraction_digits big_int every value
read_whole negative w hw =
    let plain : IsUnsigned w =
      rw append-nil at (IsUnsigned-behind w [] hw (unfold starts_with in (refl, refl))) in
    read_signed negative 0 w (digits-IsVisible w hw) plain
    ∙ rw (split-Lacks b'.' w (digits-Lacks w hw), every-digits w hw)

sign_text-sign : (n : ℤ) → sign_text n ≡ sign (is_negative n)
sign_text-sign (pos n) = refl
sign_text-sign (negsuc n) = refl

signed-abs : (n : ℤ) → signed (is_negative n) (abs n) ≡ n
signed-abs (pos n) = refl
signed-abs (negsuc n) = refl

combine-eq :
    (negative : Bool) (d whole frac : ℕ)
    → combine negative d (some whole) (some frac) ≡ some (signed negative (whole * 10 ^ d + frac))
combine-eq true d whole frac = refl
combine-eq false d whole frac = refl

power_pos : (k : ℕ) → 0 < 10 ^ k
power_pos zero = omega arith
power_pos (suc k) = omega (arith, power_pos k, pow-suc 10 k)

-- The two forms that are printed.
read_format_pointed :
    (n : ℤ) (k : ℕ)
    → to_minor_units
        (sign_text n
          ++ (show (abs n / 10 ^ suc k) ++ b'.' ∷ pad_start (suc k) (show (abs n % 10 ^ suc k))))
        (suc k)
      ≡ some n
read_format_pointed n k =
    let f = 10 ^ suc k in
    let small : abs n % f < f = mod-lt (abs n) (power_pos (suc k)) in
    rw
      (
        sign_text-sign n,
        read_pointed (is_negative n) (suc k) (show (abs n / f))
            (pad_start (suc k) (show (abs n % f))) (show-IsDigit _) (pad_start-IsDigit (suc k) _)
            (length-pad_start-show k (abs n % f) small),
        value-show,
        value-pad_start-show,
      )
      (combine-eq (is_negative n) (suc k) (abs n / f) (abs n % f)
        ∙ ap some (
            ap (signed (is_negative n))
              (let e : abs n / f * f + abs n % f ≡ abs n = omega arith in e)
            ∙ signed-abs n))

read_format_whole : (n : ℤ) → to_minor_units (sign_text n ++ show (abs n)) 0 ≡ some n
read_format_whole n =
    rw (sign_text-sign n, read_whole (is_negative n) (show (abs n)) (show-IsDigit _), value-show)
      (combine-eq (is_negative n) 0 (abs n) 0
        ∙ ap some (
            ap (signed (is_negative n)) (let e : abs n * 1 + 0 ≡ abs n = omega arith in e)
            ∙ signed-abs n))

-- Whatever `formatMajorUnits` prints for an amount, in any number of decimals, `toMinorUnits` reads
-- back as that amount.
pub to_minor_units-format_major_units :
    (n : ℤ) (decimals : ℕ) (t : Text)
    → format_major_units n decimals ≡ some t
    → to_minor_units t decimals ≡ some n
unfolding format_major_units
to_minor_units-format_major_units n zero t h =
    let printed : sign_text n ++ show (abs n) ≡ t = ground arith in
    subst (λ u. to_minor_units u 0 ≡ some n) printed (read_format_whole n)
to_minor_units-format_major_units n (suc k) t h =
    let printed : sign_text n
          ++ (show (abs n / 10 ^ suc k) ++ b'.' ∷ pad_start (suc k) (show (abs n % 10 ^ suc k)))
        ≡ t =
      ground arith in
    subst (λ u. to_minor_units u (suc k) ≡ some n) printed (read_format_pointed n k)
