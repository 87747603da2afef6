-- ===== src/Payments/Create/Safe.antt =====
-- Handlers that leave the payments alone unless they answer with status 200, and that the first stage
-- of `POST` is one (apps/web/app/api/[version]/payments/route.ts).
use openwrapper.Prelude.{
  [], ◌&&◌, ◌≡◌, ◌⊎◌, inl, inr, refl, ◌∙◌, Bool, true, false, Option, none, some, ℕ, zero, suc,
  if◌then◌else◌,
}
use openwrapper.Js.Text.{Text, codes}
use openwrapper.Store.{World, Mode}
use openwrapper.Store.Handler.{Step, next, reply, raise, Handler, ◌>>=◌, pure, gets}
use openwrapper.Access.Authenticator.{AuthKey}
use openwrapper.Js.Text.{present, or_default}
use openwrapper.Access.Version.{VersionCheck, valid, unsupported, validate_api_version}
use openwrapper.Access.BodyReader.{
  BodyText, body_ok, too_large, read_limited_text_body, default_max_body_bytes,
}
use openwrapper.Payments.Api.{
  extract_api_token, is_idempotency_key, mode_of, is_test_mode, headers_of,
}
use openwrapper.Payments.Input.{PaymentInput, parse_payment_input}
use openwrapper.Payments.Create.Admit.{
  assemble, authenticate, Admitted, admit, checked_version, require_key, require_idempotency_key,
  require_body, require_input, require_amount, amount_of, parsed_or_null, endpoint_of,
}
use openwrapper.Payments.Create.Admission.{key_message}
use openwrapper.Payments.Api.{Env, Request, ApiResponse}

abbrev pub Same : World → World → Type 0
Same w w' = w'.payments ≡ w.payments

-- A run that leaves the payments alone, unless it answers with status 200 early.
abbrev pub SafeStep : {A : Type 0} → World → Step ApiResponse A → Type 0
SafeStep w (next a w') = Same w w'
SafeStep w (reply r w') = (r.status ≡ 200) ⊎ Same w w'
SafeStep w (raise w') = Same w w'

abbrev pub IsSafe : {A : Type 0} → Handler ApiResponse A → Type 0
IsSafe m = (w : World) → SafeStep w (m w)

pub move :
    {A : Type 0} (w w' : World) (s : Step ApiResponse A) → Same w w' → SafeStep w' s → SafeStep w s
move w w' (next a v) e h = h ∙ e
move w w' (reply r v) e (inl fine) = inl fine
move w w' (reply r v) e (inr h) = inr (h ∙ e)
move w w' (raise v) e h = h ∙ e

pub bind-IsSafe :
    {A B : Type 0} (m : Handler ApiResponse A) (f : A → Handler ApiResponse B)
    → IsSafe m
    → ((a : A) → IsSafe (f a))
    → IsSafe (m >>= f)
bind-IsSafe {A} {B} m f sm sf w = go (m w) (sm w)
  where
    go : (s : Step ApiResponse A) → SafeStep w s → SafeStep w ((◌>>=◌ (λ (_ : World). s) f) w)
    go (next a v) e = move w v (f a v) e (sf a v)
    go (reply r v) e = e
    go (raise v) e = e

pub pure-IsSafe : {A : Type 0} (x : A) → IsSafe (pure x)
pure-IsSafe x w = refl

pub gets-IsSafe : {A : Type 0} (f : World → A) → IsSafe (gets f)
gets-IsSafe f w = refl

-- A test between two handlers.
pub if-IsSafe :
    {A : Type 0} (b : Bool) (m n : Handler ApiResponse A)
    → IsSafe m
    → IsSafe n
    → IsSafe (if b then m else n)
if-IsSafe true m n hm hn = hm
if-IsSafe false m n hm hn = hn

module _ (env : Env) where
  pub checked_version-IsSafe : (v : VersionCheck) → IsSafe (checked_version env v)
  checked_version-IsSafe (valid version) = pure-IsSafe version
  checked_version-IsSafe (unsupported raw) = λ w. inr refl

  pub require_key-IsSafe :
      (message : Text) (found : Option AuthKey) → IsSafe (require_key env message found)
  require_key-IsSafe message (some key) = pure-IsSafe key
  require_key-IsSafe message none = λ w. inr refl

  pub require_body-IsSafe : (text : BodyText) → IsSafe (require_body env text)
  require_body-IsSafe (body_ok text) = pure-IsSafe text
  require_body-IsSafe too_large = λ w. inr refl

  pub require_amount-IsSafe : (n : ℕ) → IsSafe (require_amount env n)
  require_amount-IsSafe (suc n) = pure-IsSafe (suc n)
  require_amount-IsSafe zero = λ w. inr refl

  pub require_input-IsSafe :
      (key : AuthKey) (endpoint : Text) (m : Mode) (input : Option PaymentInput)
      → IsSafe (require_input env key endpoint m input)
  require_input-IsSafe key endpoint m (some input) = pure-IsSafe input
  require_input-IsSafe key endpoint m none = λ w. inr refl

  pub require_idempotency_key-IsSafe :
      (key : AuthKey) (endpoint : Text) (m : Mode) (given : Option Text)
      → IsSafe (require_idempotency_key env key endpoint m given)
  require_idempotency_key-IsSafe key endpoint m given =
      if-IsSafe (present given && is_idempotency_key (or_default given [])) _ _ (λ w. refl)
        (λ w. inr refl)

  pub admit-IsSafe : (r : Request) → IsSafe (admit env r)
  unfolding admit
  admit-IsSafe r =
      bind-IsSafe _ _ (checked_version-IsSafe (validate_api_version r.version)) λ version.
        bind-IsSafe {B = Admitted} (gets (authenticate env r)) _ (gets-IsSafe (authenticate env r))
          λ found. bind-IsSafe _ _ (require_key-IsSafe (key_message env) found) λ key.
            let m = mode_of (is_test_mode key (headers_of r)) in
            bind-IsSafe _ _
              (require_idempotency_key-IsSafe key (endpoint_of version) m
                (headers_of r (codes "idempotency-key")))
              λ idem.
                bind-IsSafe _ _
                  (require_body-IsSafe
                    (read_limited_text_body env.decode default_max_body_bytes r.body))
                  λ text.
                    let raw = parsed_or_null (env.parse_json text) in
                    bind-IsSafe _ _
                      (require_input-IsSafe key (endpoint_of version) m
                        (parse_payment_input env.is_email env.is_url raw))
                      λ input.
                        bind-IsSafe {B = Admitted} _
                          (λ amount. pure (
                            assemble env version key (extract_api_token (headers_of r))
                              (is_test_mode key (headers_of r)) idem raw input amount))
                          (require_amount-IsSafe (amount_of input.amount_minor_units input.amount))
                          λ amount. pure-IsSafe (
                            assemble env version key (extract_api_token (headers_of r))
                              (is_test_mode key (headers_of r)) idem raw input amount)
