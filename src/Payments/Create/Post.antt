-- ===== src/Payments/Create/Post.antt =====
-- `POST` as a whole: the stages in their order, the check of credentials between them, and the
-- payment stored at the end.
use openwrapper.Prelude.{none, some}
use openwrapper.Js.Text.{codes}
use openwrapper.Store.{World, PaymentRow}
use openwrapper.Store.Handler.{Handler, Step, next, reply, raise, ◌>>=◌, ◌>>◌, pure}
use openwrapper.Access.Credentials.{
  CredentialValidation, ok, missing, validate_provider_credentials,
}
use openwrapper.Ledger.Persist.{PersistPaymentInput}
use openwrapper.Ledger.Response.{payment_to_api_response}
use openwrapper.Payments.Api.{Env, Request, headers_of, ApiResponse, error, payment, fail, log}
use openwrapper.Payments.Create.Admit.{Admitted, mode, endpoint_of, admit}
use openwrapper.Payments.Create.Replay.{metadata_text, persist, check_idempotency}
use openwrapper.Payments.Create.Gateway.{Routed}
use openwrapper.Payments.Create.Route.{body_stripe_key, route}

module _ (env : Env) where
  abbrev pub refuse_missing : Admitted → CredentialValidation → Handler ApiResponse (Unit {0})
  refuse_missing a ok = pure tt
  refuse_missing a (missing message) = do
    log env a.key (codes "POST") (endpoint_of a.version) 422 none none
    fail 422 (codes "missing_provider_credentials") message

  -- `validateProviderCredentials` and its 422 response.
  unfoldable pub check_credentials : Request → Admitted → Handler ApiResponse (Unit {0})
  unfolding validate_provider_credentials body_stripe_key
  check_credentials r a = refuse_missing a (
      validate_provider_credentials env.vars a.input.provider (headers_of r)
        (body_stripe_key a.raw_json) a.is_test)

  -- The input of `persistPaymentRecord` for a new payment.
  abbrev pub create_input : Admitted → Routed → PersistPaymentInput
  create_input a d = record {
    id = d.payment_id;
    user_id = a.key.user_id;
    api_key_id = a.key.id;
    idempotency_key = a.idempotency_key;
    request_fingerprint = a.fingerprint;
    provider = a.input.provider;
    provider_reference = d.provider_reference;
    status = d.status;
    amount_minor_units = a.amount_minor_units;
    currency = a.input.currency;
    merchant_reference = a.merchant_ref;
    description = a.description;
    customer_phone = a.customer_phone;
    customer_email = a.customer_email;
    customer_name = a.customer_name;
    next_action_type = d.next_action_type;
    next_action_payload = d.next_action_payload;
    metadata_json = metadata_text env a;
    environment = some (mode a);
  }

  abbrev pub created : Admitted → Routed → PaymentRow → Handler ApiResponse ApiResponse
  created a d row = do
    log env a.key (codes "POST") (endpoint_of a.version) 201 d.routing_latency_ms (some (mode a))
    pure (record {
      status = 201;
      body = payment (payment_to_api_response row (some a.input.provider));
    })

  -- `persistPaymentRecord`, the telemetry and the 201 response.
  unfoldable pub store_payment : Admitted → Routed → Handler ApiResponse ApiResponse
  unfolding persist payment_to_api_response
  store_payment a d = persist env (create_input a d) >>= created a d

  -- What `POST` does with an admitted request.
  unfoldable pub process : Request → Admitted → Handler ApiResponse ApiResponse
  unfolding check_idempotency check_credentials route store_payment
  process r a = do
    check_idempotency env a
    check_credentials r a
    routed ← route env r a
    store_payment a routed

  -- `try { … } catch { … }`
  abbrev pub caught : Step ApiResponse ApiResponse → ApiResponse × World
  caught (next response w) = (response, w)
  caught (reply response w) = (response, w)
  caught (raise w) = (
    record {
      status = 500;
      body =
          error (codes "internal_error")
            (codes "An unexpected error occurred while processing the payment.");
    },
    w,
  )

  unfoldable pub post : Request → World → ApiResponse × World
  unfolding admit process
  post r w = caught ((admit env r >>= process r) w)
