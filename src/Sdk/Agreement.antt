-- ===== src/Sdk/Agreement.antt =====
-- Where the checks of the TypeScript client and those of the web service agree.
use openwrapper.Prelude.{◌≡◌, refl, Bool, true, none, arith, every, [], ◌∷◌, ℕ}
use openwrapper.Js.Text.{Text}
use openwrapper.Payments.Api.{is_idempotency_key, is_printable}
use openwrapper.Sdk.Checks.{is_key_char, validate_idempotency_key}

every-weaken :
    (p q : ℕ → Bool) (s : Text)
    → ((c : ℕ) → p c ≡ true → q c ≡ true)
    → every p s ≡ true
    → every q s ≡ true
unfolding every
every-weaken p q [] f h = refl
every-weaken p q (c ∷ s) f h = ground (arith, f c, every-weaken p q s f)

key_char-printable : (c : ℕ) → is_key_char c ≡ true → is_printable c ≡ true
key_char-printable c h = ground arith

-- Every idempotency key that the client accepts, the service accepts too.
pub is_idempotency_key-validate_idempotency_key :
    (key : Text) → validate_idempotency_key key ≡ none → is_idempotency_key key ≡ true
unfolding validate_idempotency_key is_idempotency_key
is_idempotency_key-validate_idempotency_key key h =
    ground (arith, every-weaken is_key_char is_printable key key_char-printable)
