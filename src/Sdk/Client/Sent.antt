-- ===== src/Sdk/Client/Sent.antt =====
-- What `payments.create` of sdk/typescript/src/client.ts puts on the network, under the checks of
-- apps/web/app/api/[version]/payments/route.ts.
use openwrapper.Prelude.{ℕ, suc, ◌≤◌, ◌≡◌, refl, ◌⊎◌, true, none, some, inl, inr, Option-cases}
use openwrapper.Js.Text.{Text, codes, ◌===◌, or_default, to_lower}
use openwrapper.Js.Json.{int}
use openwrapper.Access.Authenticator.{Headers}
use openwrapper.Payments.Api.{is_idempotency_key}
use openwrapper.Payments.Input.{amount_schema}
use openwrapper.Sdk.Agreement.{is_idempotency_key-validate_idempotency_key}
use openwrapper.Sdk.Checks.{
  Refusal, Number, natural, other, range_error, validate_amount, validate_idempotency_key,
  validate_positive_integer,
}
use openwrapper.Sdk.Providers.{merge_providers, create_headers}
use openwrapper.Sdk.Request.Retries.{request-bounded}
use openwrapper.Sdk.Sent.{over}
use openwrapper.Sdk.Wire.{Payment, from_wire}
use openwrapper.Sdk.Client.{
  exchange_of, Client, Transport, Call, Exchange, nothing_sent, send, run_of, call_of, timed,
}
use openwrapper.Sdk.Client.Params.{CreatePaymentParams, CreatePaymentOptions, payment_body}
use openwrapper.Sdk.Client.Parsed.{amount_schema-validate_amount}
use openwrapper.Sdk.Client.Resources.{
  read_one, create_payment, send_payment, accepted_or, with_amount,
}

-- A call with the key in its header and the amount in its body, both as the service accepts them.
pub record IsCreation (client : Client) (key : Text) (params : CreatePaymentParams) (base : Headers)
    (e : Exchange Payment) : Type 0 where
  pub call : Call
  pub amount : ℕ
  pub sent : e.call ≡ some call
  pub attempts : e.fetches ≤ suc client.max_retries
  pub method : call.method ≡ codes "POST"
  pub key_sent : over call.headers base (codes "idempotency-key") ≡ some key
  pub key_accepted : is_idempotency_key key ≡ true
  pub amount_given : params.amount_minor_units ≡ natural amount
  pub amount_accepted : amount_schema (int amount) ≡ some amount
  pub body : call.body ≡ some (payment_body params amount)

-- Nothing is sent, or a creation.
abbrev pub RefusedOrSent : Client → Text → CreatePaymentParams → Headers → Exchange Payment → Type 0
RefusedOrSent client key params base e =
    ((r : Refusal) × (e ≡ nothing_sent r)) ⊎ IsCreation client key params base e

timed_cases :
    {A : Type 0} (t : Number) (k : ℕ → Exchange A)
    → ((r : Refusal) × (timed t k ≡ nothing_sent r)) ⊎ ((n : ℕ) × (timed t k ≡ k n))
timed_cases other k = inl (range_error, refl)
timed_cases (natural n) k = elim (Option-cases (validate_positive_integer (natural n))) [
  | inl fine ↦ inr (n, rw (timed, fine) refl)
  | inr (r, bad) ↦ inl (r, rw (timed, bad) refl)
]

module _ (transport : Transport) (client : Client) (base : Headers) where
  sent_sound :
      (key : Text) (params : CreatePaymentParams) (options : CreatePaymentOptions) (n : ℕ)
      → params.amount_minor_units ≡ natural n
      → validate_amount (natural n) ≡ none
      → validate_idempotency_key key ≡ none
      → RefusedOrSent client key params base (send_payment transport client key params options n)
  unfolding send create_headers ◌===◌ to_lower
  sent_sound key params options n given amount good =
      let headers = create_headers key (merge_providers client.providers options.providers) in
      let body = some (payment_body params n) in
      let call = call_of client (codes "POST") (codes "/v1/payments") headers body in
      let k = λ (t : ℕ). exchange_of (read_one from_wire) call (run_of transport client call t) in
      elim (timed_cases (or_default options.timeout_ms client.timeout_ms) k) [
        | inl (r, e) ↦ inl (r, e)
        | inr (t, e) ↦ inr (
            rw e (record {
              call = call;
              amount = n;
              sent = refl;
              attempts =
                  (request-bounded (transport call) call.url t client.retry_delay_ms
                    client.max_retries).1;
              method = refl;
              key_sent = refl;
              key_accepted = is_idempotency_key-validate_idempotency_key key good;
              amount_given = given;
              amount_accepted = amount_schema-validate_amount n amount;
              body = refl;
            }))
      ]

  keyed_sound :
      (key : Text) (params : CreatePaymentParams) (options : CreatePaymentOptions) (n : ℕ)
      → params.amount_minor_units ≡ natural n
      → validate_amount (natural n) ≡ none
      → RefusedOrSent client key params base (
          accepted_or
            (validate_idempotency_key key)
            (send_payment transport client key params options n))
  keyed_sound key params options n given amount =
      elim (Option-cases (validate_idempotency_key key)) [
        | inl good ↦ rw good (sent_sound key params options n given amount good)
        | inr (r, bad) ↦ rw bad (inl (r, refl))
      ]

  amount_sound :
      (key : Text) (params : CreatePaymentParams) (options : CreatePaymentOptions) (number : Number)
      → params.amount_minor_units ≡ number
      → RefusedOrSent client key params base (
          with_amount number (λ n.
            accepted_or
              (validate_idempotency_key key)
              (send_payment transport client key params options n)))
  amount_sound key params options other given = inl (range_error, refl)
  amount_sound key params options (natural n) given =
      elim (Option-cases (validate_amount (natural n))) [
        | inl good ↦ rw good (keyed_sound key params options n given good)
        | inr (r, bad) ↦ rw bad (inl (r, refl))
      ]

  -- Creating a payment either raises an exception with nothing sent, or calls the service at most
  -- `maxRetries + 1` times with one `POST`, in whose header the service finds the idempotency key, and
  -- whose amount is the one given; and the service accepts both that key and that amount.
  pub create_payment-RefusedOrSent :
      (uuid : Text) (params : CreatePaymentParams) (options : CreatePaymentOptions)
      → RefusedOrSent client
          (or_default options.idempotency_key uuid)
          params
          base
          (create_payment transport client uuid params options)
  unfolding create_payment
  create_payment-RefusedOrSent uuid params options =
      amount_sound (or_default options.idempotency_key uuid) params options
        params.amount_minor_units refl
