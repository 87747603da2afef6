-- ===== src/Payments/Create/Admission.antt =====
-- The first stage of `POST`, seen from the others: it reads the API keys and nothing else of the
-- shared state, and it writes no payment.
use openwrapper.Prelude.{
  ◌∙◌, [], ◌≡◌, refl, Option, none, some, ◌&&◌, Bool-cases, inl, inr, ℕ, zero, suc, ap,
}
use openwrapper.Js.Text.{Text, codes, present, or_default}
use openwrapper.Store.{World, Mode}
use openwrapper.Store.Handler.{next, gets}
use openwrapper.Store.Steady.{IsSteady, bind-IsSteady, pure-IsSteady}
use openwrapper.Access.Version.{validate_api_version, VersionCheck, valid, unsupported}
use openwrapper.Access.Authenticator.{AuthKey, authenticate_api_request, authenticate_token}
use openwrapper.Access.BodyReader.{
  default_max_body_bytes, read_limited_text_body, BodyText, body_ok, too_large,
}
use openwrapper.Payments.Api.{
  extract_api_token, headers_of, is_test_mode, mode_of, Env, Request, ApiResponse,
  is_idempotency_key,
}
use openwrapper.Payments.Input.{parse_payment_input, PaymentInput}
use openwrapper.Payments.Create.Admit.{
  assemble, parsed_or_null, amount_of, parsed_or_null, endpoint_of, admit, checked_version,
  require_key, authenticate, require_idempotency_key, require_body, require_input, require_amount,
}

module _ (env : Env) where
  abbrev pub key_message : Text
  key_message = codes "Missing or invalid API key. Use Authorization: Bearer <key> or X-API-Key."

  checked_version-IsSteady : (v : VersionCheck) → IsSteady (checked_version env v)
  checked_version-IsSteady (valid version) = pure-IsSteady version
  checked_version-IsSteady (unsupported raw) = λ w a w' h. (cc)

  require_key-IsSteady :
      (message : Text) (found : Option AuthKey) → IsSteady (require_key env message found)
  require_key-IsSteady message (some key) = pure-IsSteady key
  require_key-IsSteady message none = λ w a w' h. (cc)

  require_body-IsSteady : (text : BodyText) → IsSteady (require_body env text)
  require_body-IsSteady (body_ok text) = pure-IsSteady text
  require_body-IsSteady too_large = λ w a w' h. (cc)

  require_amount-IsSteady : (n : ℕ) → IsSteady (require_amount env n)
  require_amount-IsSteady (suc n) = pure-IsSteady (suc n)
  require_amount-IsSteady zero = λ w a w' h. (cc)

  require_input-IsSteady :
      (key : AuthKey) (endpoint : Text) (m : Mode) (input : Option PaymentInput)
      → IsSteady (require_input env key endpoint m input)
  require_input-IsSteady key endpoint m (some input) = pure-IsSteady input
  require_input-IsSteady key endpoint m none = λ w a w' h. (cc)

  require_idempotency_key-IsSteady :
      (key : AuthKey) (endpoint : Text) (m : Mode) (given : Option Text)
      → IsSteady (require_idempotency_key env key endpoint m given)
  require_idempotency_key-IsSteady key endpoint m given = λ w a w' h.
      elim (Bool-cases (present given && is_idempotency_key (or_default given []))) [
        | inl good ↦ rw good (pure-IsSteady (or_default given []) w a w' (rw good at h))
        | inr bad ↦ (let e = rw bad at h in cc)
      ]

  authenticate-same :
      (r : Request) (w v : World)
      → v.api_keys ≡ w.api_keys
      → authenticate env r v ≡ authenticate env r w
  unfolding authenticate_api_request authenticate_token
  authenticate-same r w v e = rw e refl

  authenticate-IsSteady : (r : Request) → IsSteady {R = ApiResponse} (gets (authenticate env r))
  authenticate-IsSteady r = λ w a w' h.
      let same : w' ≡ w = cc in
      (
        same,
        λ v e.
            ap (λ (o : Option AuthKey). next o v) (authenticate-same r w v e)
            ∙ ap (λ o. next o v) (cc),
      )

  pub admit-IsSteady : (r : Request) → IsSteady (admit env r)
  unfolding admit
  admit-IsSteady r =
      bind-IsSteady _ _ (checked_version-IsSteady (validate_api_version r.version)) λ version.
        bind-IsSteady _ _ (authenticate-IsSteady r) λ found.
          bind-IsSteady _ _ (require_key-IsSteady key_message found) λ key.
            let m = mode_of (is_test_mode key (headers_of r)) in
            bind-IsSteady _ _
              (require_idempotency_key-IsSteady key (endpoint_of version) m
                (headers_of r (codes "idempotency-key")))
              λ idem.
                bind-IsSteady _ _
                  (require_body-IsSteady
                    (read_limited_text_body env.decode default_max_body_bytes r.body))
                  λ text.
                    let raw = parsed_or_null (env.parse_json text) in
                    bind-IsSteady _ _
                      (require_input-IsSteady key (endpoint_of version) m
                        (parse_payment_input env.is_email env.is_url raw))
                      λ input.
                        bind-IsSteady _ _
                          (require_amount-IsSteady
                            (amount_of input.amount_minor_units input.amount))
                          λ amount. pure-IsSteady (
                            assemble env version key (extract_api_token (headers_of r))
                              (is_test_mode key (headers_of r)) idem raw input amount)
