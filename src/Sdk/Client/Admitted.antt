-- ===== src/Sdk/Client/Admitted.antt =====
-- A call of `payments.create` of sdk/typescript/src/client.ts that arrives at `POST` of
-- apps/web/app/api/[version]/payments/route.ts.
use openwrapper.Prelude.{
  ℕ, zero, suc, ◌≡◌, refl, sym, ap, ◌∙◌, true, none, some, [], ◌∷◌, arith, inl, inr,
}
use openwrapper.Js.Text.{Text, codes, present, or_default}
use openwrapper.Js.Json.{int}
use openwrapper.Store.{World}
use openwrapper.Store.Handler.{next}
use openwrapper.Access.Version.{validate_api_version, valid}
use openwrapper.Access.Authenticator.{AuthKey, Headers}
use openwrapper.Access.BodyReader.{read_limited_text_body, default_max_body_bytes, body_ok}
use openwrapper.Payments.Api.{
  extract_api_token, is_test_mode, Env, Request, headers_of, is_idempotency_key,
}
use openwrapper.Payments.Input.{amount_schema}
use openwrapper.Payments.Create.Admit.{assemble, Admitted, admit, authenticate}
use openwrapper.Sdk.Checks.{natural}
use openwrapper.Sdk.Sent.{over}
use openwrapper.Sdk.Client.{Client, Transport, Call}
use openwrapper.Sdk.Client.Params.{CreatePaymentParams, CreatePaymentOptions, payment_body}
use openwrapper.Sdk.Client.Parsed.{IsWithin, input_of, parse_payment_input-payment_body}
use openwrapper.Sdk.Client.Resources.{create_payment}
use openwrapper.Sdk.Client.Sent.{create_payment-RefusedOrSent}

-- The request is admitted as the payment of the parameters, under the key and for the caller.
pub record IsAdmittedAs (who : AuthKey) (key : Text) (params : CreatePaymentParams) (a : Admitted)
    : Type 0 where
  pub caller : a.key ≡ who
  pub idempotency_key : a.idempotency_key ≡ key
  pub amount : natural a.amount_minor_units ≡ params.amount_minor_units
  pub input : a.input ≡ input_of params a.amount_minor_units

present-key : (key : Text) → is_idempotency_key key ≡ true → present (some key) ≡ true
unfolding is_idempotency_key
present-key [] h = ground arith
present-key (c ∷ s) h = refl

module _ (env : Env) (r : Request) (w : World) (who : AuthKey) (version text : Text) where
  admit-payment_body :
      (key : Text) (params : CreatePaymentParams) (n : ℕ)
      → validate_api_version r.version ≡ valid version
      → authenticate env r w ≡ some who
      → headers_of r (codes "idempotency-key") ≡ some key
      → read_limited_text_body env.decode default_max_body_bytes r.body ≡ body_ok text
      → env.parse_json text ≡ some (payment_body params n)
      → is_idempotency_key key ≡ true
      → amount_schema (int n) ≡ some n
      → params.amount_minor_units ≡ natural n
      → IsWithin env.is_email env.is_url params
      → (a : Admitted) × (admit env r w ≡ next a w) × IsAdmittedAs who key params a
  unfolding admit assemble amount_schema
  admit-payment_body key params zero v auth sent body json good amount given within = cc
  admit-payment_body key params (suc m) v auth sent body json good amount given within = (
    assemble env version who (extract_api_token (headers_of r)) (is_test_mode who (headers_of r))
        key (payment_body params (suc m)) (input_of params (suc m)) (suc m),
    rw
        (
          v,
          auth,
          sent,
          present-key key good,
          good,
          body,
          json,
          parse_payment_input-payment_body env.is_email env.is_url params (suc m) amount within,
        )
        refl,
    record { caller = refl; idempotency_key = refl; amount = sym given; input = refl },
  )

  -- A creation that the client sends, within the service's bounds for texts, is admitted when it arrives
  -- with a known API key and in a supported version: it is not refused, whatever the providers, and the
  -- service goes on with the client's parameters, amount and idempotency key, for the key's account. To
  -- arrive is for the header and the body to be read as they were sent.
  pub admit-create_payment :
      (transport : Transport) (client : Client) (uuid : Text) (params : CreatePaymentParams)
      (options : CreatePaymentOptions) (base : Headers) (call : Call)
      → (create_payment transport client uuid params options).call ≡ some call
      → IsWithin env.is_email env.is_url params
      → validate_api_version r.version ≡ valid version
      → authenticate env r w ≡ some who
      → headers_of r (codes "idempotency-key") ≡ over call.headers base (codes "idempotency-key")
      → read_limited_text_body env.decode default_max_body_bytes r.body ≡ body_ok text
      → env.parse_json text ≡ call.body
      → (a : Admitted) × (admit env r w ≡ next a w)
        × IsAdmittedAs who (or_default options.idempotency_key uuid) params a
  admit-create_payment transport client uuid params options base call made within v auth sent body
        json =
      elim (create_payment-RefusedOrSent transport client base uuid params options) [
        | inl (e, refused) ↦
            let none_sent : none ≡ some call = sym (ap (λ x. x.call) refused) ∙ made in cc
        | inr c ↦
            let found : some call ≡ some c.call = sym made ∙ c.sent in
            let same : call ≡ c.call = cc in
            let key_arrives : headers_of r (codes "idempotency-key")
                ≡ some (or_default options.idempotency_key uuid) =
              sent
              ∙ ap (λ (x : Call). over x.headers base (codes "idempotency-key")) same
              ∙ c.key_sent in
            let body_arrives : env.parse_json text ≡ some (payment_body params c.amount) =
              json ∙ ap (λ (x : Call). x.body) same ∙ c.body in
            admit-payment_body (or_default options.idempotency_key uuid) params c.amount v auth
              key_arrives body body_arrives c.key_accepted c.amount_accepted c.amount_given within
      ]
