-- ===== src/Ledger/Tests.antt =====
-- The ledger on a small table of payments.
use mathlib.Core.List.{Memᴰ}
use openwrapper.Prelude.{◌≡◌, ◌⊎◌, refl, false, none, some, [], ◌∷◌}
use openwrapper.Js.Text.{codes, ◌===◌, present}
use openwrapper.Store.{PaymentRow, live, mode_text, first_match}
use openwrapper.Store.Laws.{first_sql}
use openwrapper.Ledger.Idempotency.{found, find_idempotent_payment, find_idempotent_payment_owner}
use openwrapper.Ledger.Persist.{PersistPaymentInput, new_row, persist_payment_record}
use openwrapper.Ledger.Replay.{find_idempotent_payment-persist_payment_record}
use openwrapper.Ledger.Fixed.{IsUpsertOf, persist_payment_record-IsUpsertOf}

abbrev input : PersistPaymentInput
input = record {
  id = codes "pay_1";
  user_id = codes "u1";
  api_key_id = 4;
  idempotency_key = codes "k1";
  request_fingerprint = codes "f1";
  provider = codes "fawry";
  provider_reference = none;
  status = codes "pending";
  amount_minor_units = 500;
  currency = codes "EGP";
  merchant_reference = none;
  description = codes "Payment";
  customer_phone = codes "+201234567890";
  customer_email = none;
  customer_name = none;
  next_action_type = none;
  next_action_payload = none;
  metadata_json = codes "{}";
  environment = some live;
}

abbrev row : PaymentRow
row = new_row input 7

find_idempotent_payment_owner_example :
    Memᴰ row (row ∷ [])
    × (row.idempotency_key ≡ codes "k1")
    × (row.environment ≡ mode_text live)
    × ((row.user_id ≡ some (codes "u1")) ⊎ (present row.user_id ≡ false))
unfolding find_idempotent_payment first_match ◌===◌
find_idempotent_payment_owner_example =
    find_idempotent_payment_owner first_sql (codes "u1") (codes "k1") live (row ∷ []) false row refl

-- A second payment, of another key.
abbrev other_input : PersistPaymentInput
other_input = record input { id = codes "pay_2"; idempotency_key = codes "k2" }

find_idempotent_payment-persist_payment_record_example :
    find_idempotent_payment first_sql
      (codes "u1")
      (codes "k2")
      live
      (persist_payment_record false 9 other_input (row ∷ [])).1
      false
    ≡ found (new_row other_input 9)
unfolding find_idempotent_payment first_match ◌===◌
find_idempotent_payment-persist_payment_record_example =
    find_idempotent_payment-persist_payment_record first_sql 9 other_input live (row ∷ []) refl
      (refl, tt) refl

persist_payment_record-IsUpsertOf_example :
    IsUpsertOf (codes "pay_2") (row ∷ []) (persist_payment_record false 9 other_input (row ∷ [])).1
persist_payment_record-IsUpsertOf_example =
    persist_payment_record-IsUpsertOf false 9 other_input (row ∷ [])
