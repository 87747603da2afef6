-- ===== src/Sdk/Client/Resources.antt =====
-- The methods of `OpenWrapperClient` (sdk/typescript/src/client.ts) and the shortcuts to them. A path
-- that cannot be encoded raises a URIError, which is written as a type error.
use openwrapper.Prelude.{if◌then◌else◌, ℕ, Option, none, some, List, [], ◌∷◌, ◌++◌}
use openwrapper.Js.Text.{Text, codes, or_default, present}
use openwrapper.Js.Decimal.{show}
use openwrapper.Js.Json.{Json, get}
use openwrapper.Js.Percent.{encode_uri_component, encode_form}
use openwrapper.Sdk.Checks.{
  Refusal, type_error, range_error, Number, natural, other, validate_amount,
  validate_idempotency_key,
}
use openwrapper.Sdk.Providers.{merge_providers, create_headers}
use openwrapper.Sdk.Wire.{
  Payment, Refund, Event, WebhookEndpoint, from_wire, from_wire_refund, from_wire_event,
  from_wire_endpoint, read_list,
}
use openwrapper.Sdk.Client.{Client, Transport, Exchange, nothing_sent, send}
use openwrapper.Sdk.Client.Params.{
  CreatePaymentParams, CreatePaymentOptions, RefundParams, ListEventsParams,
  CreateWebhookEndpointParams, payment_body, refund_amount, refund_body, endpoint_body,
}

-- Reading a body; none is undefined, which has no properties.
abbrev pub read_one : {A : Type 0} → (Json → A) → Option Json → Option A
read_one f none = none
read_one f (some w) = some (f w)

abbrev read_many : {A : Type 0} → (Json → A) → Option Json → Option (List A)
read_many f none = none
read_many f (some w) = read_list f w

-- `ListEnvelope`
pub record Envelope (A : Type 0) : Type 0 where
  pub items : List A
  pub has_more : Option Json

abbrev envelope_of : {A : Type 0} → Option Json → Option (List A) → Option (Envelope A)
envelope_of more none = none
envelope_of more (some items) = some (record { items = items; has_more = more })

abbrev read_envelope : {A : Type 0} → (Json → A) → Option Json → Option (Envelope A)
read_envelope f none = none
read_envelope f (some w) = envelope_of (get w (codes "has_more")) (read_list f w)

abbrev pub accepted_or : {A : Type 0} → Option Refusal → Exchange A → Exchange A
accepted_or none e = e
accepted_or (some r) e = nothing_sent r

abbrev pub with_amount : {A : Type 0} → Number → (ℕ → Exchange A) → Exchange A
with_amount other k = nothing_sent range_error
with_amount (natural n) k = accepted_or (validate_amount (natural n)) (k n)

-- `if (!id) throw new TypeError(…)`, then the path around the encoded id.
abbrev pub encoded : {A : Type 0} → Text → Text → Option Text → (Text → Exchange A) → Exchange A
encoded before after none k = nothing_sent type_error
encoded before after (some segment) k = k (before ++ (segment ++ after))

abbrev pub with_id : {A : Type 0} → Text → Text → Text → (Text → Exchange A) → Exchange A
with_id id before after k =
    if present (some id)
    then encoded before after (encode_uri_component id) k
    else nothing_sent type_error

module _ (transport : Transport) (client : Client) where
  -- The call of `payments.create`, behind its checks.
  abbrev pub send_payment : Text → CreatePaymentParams → CreatePaymentOptions → ℕ → Exchange Payment
  send_payment key params options n =
      send transport client (codes "POST") (codes "/v1/payments")
        (create_headers key (merge_providers client.providers options.providers))
        (some (payment_body params n)) options.timeout_ms (read_one from_wire)

  -- `payments.create`, with the UUID that it takes where no key is given.
  unfoldable pub create_payment :
      Text → CreatePaymentParams → CreatePaymentOptions → Exchange Payment
  unfolding send validate_amount validate_idempotency_key create_headers merge_providers
      payment_body from_wire
  create_payment uuid params options =
      let key = or_default options.idempotency_key uuid in
      with_amount params.amount_minor_units
        (λ n. accepted_or (validate_idempotency_key key) (send_payment key params options n))

  -- `payments.get`
  unfoldable pub get_payment : Text → Option Number → Exchange Payment
  unfolding send encode_uri_component from_wire
  get_payment id timeout_ms =
      with_id id (codes "/v1/payments/") []
        (λ path. send transport client (codes "GET") path [] none timeout_ms (read_one from_wire))

  -- `if (options.idempotencyKey)`
  abbrev refund_headers : Option Text → List (Text × Text)
  refund_headers none = []
  refund_headers (some []) = []
  refund_headers (some (c ∷ key)) = (codes "Idempotency-Key", c ∷ key) ∷ []

  -- `refunds.create`; the id is encoded behind the check of the amount.
  unfoldable pub create_refund : Text → RefundParams → Option Text → Option Number → Exchange Refund
  unfolding send encode_uri_component validate_amount refund_body from_wire_refund
  create_refund id params key timeout_ms =
      if present (some id)
      then with_amount (refund_amount params) (λ n.
        encoded (codes "/v1/payments/") (codes "/refunds") (encode_uri_component id) (λ path.
          send transport client (codes "POST") path (refund_headers key)
            (some (refund_body params n)) timeout_ms (read_one from_wire_refund)))
      else nothing_sent type_error

  -- `refunds.list`
  unfoldable pub list_refunds : Text → Option Number → Exchange (List Refund)
  unfolding send encode_uri_component read_list from_wire_refund
  list_refunds id timeout_ms = with_id id (codes "/v1/payments/") (codes "/refunds") (λ path.
      send transport client (codes "GET") path [] none timeout_ms (read_many from_wire_refund))

  abbrev query_of : ListEventsParams → List Text
  query_of params =
      elim params.limit [ none ↦ [] | some n ↦ (codes "limit=" ++ show n) ∷ [] ]
      ++ elim params.starting_after [
        | none ↦ []
        | some [] ↦ []
        | some (c ∷ s) ↦ (codes "starting_after=" ++ encode_form (c ∷ s)) ∷ []
      ]

  abbrev events_path : List Text → Text
  events_path [] = codes "/v1/events"
  events_path (q ∷ []) = codes "/v1/events?" ++ q
  events_path (q ∷ r ∷ rest) = codes "/v1/events?" ++ (q ++ b'&' ∷ r)

  -- `events.list`
  unfoldable pub list_events : ListEventsParams → Option Number → Exchange (Envelope Event)
  unfolding send encode_form show read_list from_wire_event get
  list_events params timeout_ms =
      send transport client (codes "GET") (events_path (query_of params)) [] none timeout_ms
        (read_envelope from_wire_event)

  -- `events.get`
  unfoldable pub get_event : Text → Option Number → Exchange Event
  unfolding send encode_uri_component from_wire_event
  get_event id timeout_ms = with_id id (codes "/v1/events/") [] (λ path.
      send transport client (codes "GET") path [] none timeout_ms (read_one from_wire_event))

  -- `webhookEndpoints.create`
  unfoldable pub create_webhook_endpoint :
      CreateWebhookEndpointParams → Option Number → Exchange WebhookEndpoint
  unfolding send endpoint_body from_wire_endpoint
  create_webhook_endpoint params timeout_ms =
      send transport client (codes "POST") (codes "/v1/webhook_endpoints") []
        (some (endpoint_body params)) timeout_ms (read_one from_wire_endpoint)

  -- `webhookEndpoints.list`
  unfoldable pub list_webhook_endpoints : Option Number → Exchange (List WebhookEndpoint)
  unfolding send read_list from_wire_endpoint
  list_webhook_endpoints timeout_ms =
      send transport client (codes "GET") (codes "/v1/webhook_endpoints") [] none timeout_ms
        (read_many from_wire_endpoint)

  -- `webhookEndpoints.delete`, which reads nothing of the answer.
  unfoldable pub delete_webhook_endpoint : Text → Option Number → Exchange (Unit {0})
  unfolding send encode_uri_component
  delete_webhook_endpoint id timeout_ms =
      with_id id (codes "/v1/webhook_endpoints/") []
        (λ path. send transport client (codes "DELETE") path [] none timeout_ms (λ body. some tt))
