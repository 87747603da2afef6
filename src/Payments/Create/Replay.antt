-- ===== src/Payments/Create/Replay.antt =====
-- The second stage of `POST`: a key of another account or another request is a conflict, and a
-- request that was made before is answered from the stored payment.
use openwrapper.Prelude.{not, none, some, List, [], ◌∷◌, if◌then◌else◌}
use openwrapper.Js.Text.{Text, codes, ◌===◌, ◌or◌, or_text}
use openwrapper.Js.Json.{str, obj, Fields, end, field}
use openwrapper.Store.{mode_text, PaymentRow, World}
use openwrapper.Store.Handler.{Handler, Step, next, raise, ◌>>=◌, ◌>>◌, pure, answer, gets, throw}
use openwrapper.Ledger.Idempotency.{
  Lookup, absent, found, cross_tenant, failed, find_idempotent_payment,
}
use openwrapper.Ledger.Persist.{PersistPaymentInput, Persisted, persist_payment_record}
use openwrapper.Ledger.Response.{payment_to_api_response}
use openwrapper.Payments.Api.{Env, ApiResponse, payment, fail, log}
use openwrapper.Payments.Create.Admit.{Admitted, mode, endpoint_of, metadata_fields}

-- `{ ...metadata, environment }`
unfoldable pub with_environment : List (Text × Text) → Text → Fields
unfolding ◌===◌ metadata_fields
with_environment [] env = field (codes "environment") (str env) end
with_environment ((k, v) ∷ es) env =
    if k === codes "environment"
    then field k (str env) (metadata_fields es)
    else field k (str v) (with_environment es env)

abbrev pub metadata_text : Env → Admitted → Text
metadata_text env a = env.stringify (obj (with_environment a.metadata (mode_text (mode a))))

-- The input of `persistPaymentRecord` for a row that is already there.
abbrev pub replay_input : Env → Admitted → PaymentRow → PersistPaymentInput
replay_input env a row = record {
  id = row.id;
  user_id = a.key.user_id;
  api_key_id = a.key.id;
  idempotency_key = a.idempotency_key;
  request_fingerprint = a.fingerprint;
  provider = row.provider;
  provider_reference = row.provider_reference;
  status = row.status;
  amount_minor_units = row.amount_minor_units;
  currency = row.currency;
  merchant_reference = row.merchant_reference;
  description = or_text row.description a.description;
  customer_phone = or_text row.customer_phone a.customer_phone;
  customer_email = row.customer_email or a.customer_email;
  customer_name = row.customer_name or a.customer_name;
  next_action_type = row.next_action_type;
  next_action_payload = row.next_action_payload;
  metadata_json = or_text row.metadata_json (metadata_text env a);
  environment = some (mode a);
}

abbrev pub stored : World → Persisted → Step ApiResponse PaymentRow
stored w (none, rows) = raise w
stored w (some r, rows) = next r (record w { payments = rows })

-- `await persistPaymentRecord(input)`: the row, or an exception.
unfoldable pub persist : Env → PersistPaymentInput → Handler ApiResponse PaymentRow
unfolding persist_payment_record
persist env input w = stored w (persist_payment_record env.persist_fails env.now input w.payments)

module _ (env : Env) (a : Admitted) where
  abbrev pub conflict : Text → Handler ApiResponse (Unit {0})
  conflict message = do
    log env a.key (codes "POST") (endpoint_of a.version) 409 none (some (mode a))
    fail 409 (codes "idempotency_conflict") message

  abbrev pub replayed : PaymentRow → Handler ApiResponse (Unit {0})
  replayed attached = do
    log env a.key (codes "POST") (endpoint_of a.version) 200 none (some (mode a))
    answer (record {
      status = 200;
      body = payment (payment_to_api_response attached (some a.input.provider));
    })

  abbrev pub replay : PaymentRow → Handler ApiResponse (Unit {0})
  replay row = persist env (replay_input env a row) >>= replayed

  -- The branches on what `findIdempotentPayment` gave.
  abbrev pub settle : Lookup → Handler ApiResponse (Unit {0})
  settle absent = pure tt
  settle failed = throw
  settle cross_tenant = conflict (codes "Idempotency key is already in use by another account.")
  settle (found row) =
      if not (row.request_fingerprint === a.fingerprint)
      then conflict (codes "Idempotency key was already used with different request parameters.")
      else replay row

  abbrev pub lookup_in : World → Lookup
  lookup_in w =
      find_idempotent_payment env.sql a.key.user_id a.idempotency_key (mode a) w.payments
        env.lookup_fails

  unfoldable pub check_idempotency : Handler ApiResponse (Unit {0})
  unfolding persist payment_to_api_response ◌===◌
  check_idempotency = do found_before ← gets lookup_in; settle found_before
