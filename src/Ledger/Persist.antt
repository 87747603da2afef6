-- ===== src/Ledger/Persist.antt =====
-- `persistPaymentRecord` of apps/web/lib/payment-ledger-service.ts.
use openwrapper.Prelude.{ℕ, Bool, true, false, Option, none, some, List, if◌then◌else◌}
use openwrapper.Js.Text.{◌or◌, Text, ◌===◌, or_default}
use openwrapper.Store.{Mode, live, mode_text, PaymentRow, upsert, upsert_returning}
use openwrapper.Access.Authenticator.{sandbox_user}

pub record PersistPaymentInput : Type 0 where
  pub id : Text
  pub user_id : Text
  pub api_key_id : ℕ
  pub idempotency_key : Text
  pub request_fingerprint : Text
  pub provider : Text
  pub provider_reference : Option Text
  pub status : Text
  pub amount_minor_units : ℕ
  pub currency : Text
  pub merchant_reference : Option Text
  pub description : Text
  pub customer_phone : Text
  pub customer_email : Option Text
  pub customer_name : Option Text
  pub next_action_type : Option Text
  pub next_action_payload : Option Text
  pub metadata_json : Text
  pub environment : Option Mode

-- `.values({ … })`: a value that is undefined is stored as null.
abbrev pub new_row : PersistPaymentInput → ℕ → PaymentRow
new_row input now = record {
  id = input.id;
  user_id = some input.user_id;
  api_key_id = some input.api_key_id;
  idempotency_key = input.idempotency_key;
  request_fingerprint = input.request_fingerprint;
  provider = input.provider;
  provider_reference = input.provider_reference;
  status = input.status;
  amount_minor_units = input.amount_minor_units;
  currency = input.currency;
  merchant_reference = input.merchant_reference;
  description = some input.description;
  customer_phone = some input.customer_phone;
  customer_email = input.customer_email;
  customer_name = input.customer_name;
  next_action_type = input.next_action_type;
  next_action_payload = input.next_action_payload;
  metadata_json = some input.metadata_json;
  environment = mode_text (or_default input.environment live);
  created_at = now;
  updated_at = now;
}

-- The row that the sandbox user gets when the database fails: an empty email or name is null there.
abbrev pub fallback_row : PersistPaymentInput → ℕ → PaymentRow
fallback_row input now = record (new_row input now) {
  customer_email = input.customer_email or none;
  customer_name = input.customer_name or none;
}

-- A value of the `set` that is undefined leaves its column as it is.
abbrev pub or_stored : Option Text → Option Text → Option Text
or_stored none stored = stored
or_stored (some s) stored = some s

-- `.onConflictDoUpdate({ target: payments.id, set: { … } })`: the key, the provider, the amount and
-- the currency of the row stay. Of the values only the customer's email and name can be undefined;
-- those that are null are stored as null.
abbrev pub set_row : PersistPaymentInput → ℕ → PaymentRow → PaymentRow
set_row input now r = record r {
  user_id = some input.user_id;
  api_key_id = some input.api_key_id;
  request_fingerprint = input.request_fingerprint;
  provider_reference = input.provider_reference;
  status = input.status;
  merchant_reference = input.merchant_reference;
  description = some input.description;
  customer_phone = some input.customer_phone;
  customer_email = or_stored input.customer_email r.customer_email;
  customer_name = or_stored input.customer_name r.customer_name;
  next_action_type = input.next_action_type;
  next_action_payload = input.next_action_payload;
  metadata_json = some input.metadata_json;
  environment = mode_text (or_default input.environment live);
  updated_at = now;
}

abbrev pub has_id : Text → PaymentRow → Bool
has_id id r = r.id === id

-- The row that `persistPaymentRecord` returns, or none where it throws.
abbrev pub Persisted : Type 0
Persisted = Option PaymentRow × List PaymentRow

-- `persistPaymentRecord`. The upsert gives a row back, so the second read after it is not reached.
unfoldable pub persist_payment_record : Bool → ℕ → PersistPaymentInput → List PaymentRow → Persisted
unfolding upsert upsert_returning ◌===◌
persist_payment_record true now input rows =
    (if input.user_id === sandbox_user then some (fallback_row input now) else none, rows)
persist_payment_record false now input rows = (
  some (upsert_returning (has_id input.id) (set_row input now) (new_row input now) rows),
  upsert (has_id input.id) (set_row input now) (new_row input now) rows,
)
