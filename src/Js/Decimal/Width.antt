-- ===== src/Js/Decimal/Width.antt =====
-- How many digits a number has, and reading padded digits.
use native.Mathlib.Nat.{pow-suc}
use openwrapper.Prelude.{
  ◌∙◌, ℕ, zero, suc, ◌+◌, ◌-◌, ◌*◌, ◌/◌, ◌%◌, ◌^◌, ◌≤◌, ◌<◌, ◌≡◌, refl, [], ◌∷◌, ◌++◌, arith,
  length, replicate, length-append, All, All-append,
}
use openwrapper.Js.Text.{Text}
use openwrapper.Js.Decimal.{digits, show, value, pad_start, IsDigit, value-show, show-IsDigit}

length-digits :
    (d f n : ℕ) (out : Text) → n < f → n < 10 ^ suc d → length (digits f n out) ≤ suc d + length out
unfolding digits
length-digits d zero n out h k = elim h [ ]
length-digits zero (suc f) n out h k = ground arith
length-digits (suc d) (suc f) n out h k =
    let small : n / 10 < 10 ^ suc d = omega (arith, pow-suc 10 (suc d)) in
    ground (arith, length-digits d f (n / 10) ((b'0' + n % 10) ∷ out), small)

-- A number below 10 ^ d has at most d digits, if d is positive.
pub length-show : (d n : ℕ) → n < 10 ^ suc d → length (show n) ≤ suc d
unfolding show
length-show d n h = omega (arith, length-digits d (suc n) n [] (omega arith) h)

pub length-replicate : (k c : ℕ) → length (replicate k c) ≡ k
length-replicate zero c = refl
length-replicate (suc k) c = omega (arith, length-replicate k c)

pub value-append : (n : ℕ) (s t : Text) → value n (s ++ t) ≡ value (value n s) t
unfolding value
value-append n [] t = refl
value-append n (c ∷ s) t = value-append (n * 10 + (c - b'0')) s t

value-zeros : (k : ℕ) (s : Text) → value 0 (replicate k b'0' ++ s) ≡ value 0 s
unfolding value
value-zeros zero s = refl
value-zeros (suc k) s = value-zeros k s

-- Padding with zeros does not change the value.
pub value-pad_start-show : (d n : ℕ) → value 0 (pad_start d (show n)) ≡ n
unfolding pad_start
value-pad_start-show d n = value-zeros _ (show n) ∙ value-show n

-- A number that fits is padded to the width exactly.
pub length-pad_start-show : (d n : ℕ) → n < 10 ^ suc d → length (pad_start (suc d) (show n)) ≡ suc d
unfolding pad_start
length-pad_start-show d n h = omega (
  arith,
  length-show d n h,
  length-append (replicate (suc d - length (show n)) b'0') (show n),
  length-replicate (suc d - length (show n)) b'0',
)

replicate-IsDigit : (k : ℕ) → All IsDigit (replicate k b'0')
replicate-IsDigit zero = tt
replicate-IsDigit (suc k) = (omega arith, replicate-IsDigit k)

pub pad_start-IsDigit : (d n : ℕ) → All IsDigit (pad_start d (show n))
unfolding pad_start
pad_start-IsDigit d n =
    All-append IsDigit (replicate (d - length (show n)) b'0') (show n) (replicate-IsDigit _)
      (show-IsDigit n)
