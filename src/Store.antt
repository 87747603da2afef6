-- ===== src/Store.antt =====
-- apps/web/lib/db/schema.ts: the tables that the web service keeps in Postgres, as lists of rows,
-- and the statements that the service runs on them. `Handler` is the shape of a route handler.
pub mod Handler
pub mod Laws
pub mod Newest
pub mod Select
pub mod Steady
use openwrapper.Prelude.{
  ℕ, ◌≡◌, Bool, true, false, ◌||◌, Option, none, some, List, [], ◌∷◌, ◌++◌, if◌then◌else◌, All, any,
}
use openwrapper.Js.Text.{Text, codes, ◌===◌}
use mathlib.Core.List.{Memᴰ}

-- "live" | "test"
pub data Mode : Type 0 where
  live test : Mode

abbrev pub mode_text : Mode → Text
mode_text live = codes "live"
mode_text test = codes "test"

-- A row of `payments`. Times are milliseconds.
pub record PaymentRow : Type 0 where
  pub id : Text
  pub user_id : Option Text
  pub api_key_id : Option ℕ
  pub idempotency_key : Text
  pub request_fingerprint : Text
  pub provider : Text
  pub provider_reference : Option Text
  pub status : Text
  pub amount_minor_units : ℕ
  pub currency : Text
  pub merchant_reference : Option Text
  pub description : Option Text
  pub customer_phone : Option Text
  pub customer_email : Option Text
  pub customer_name : Option Text
  pub next_action_type : Option Text
  pub next_action_payload : Option Text
  pub metadata_json : Option Text
  pub environment : Text
  pub created_at : ℕ
  pub updated_at : ℕ

-- A row of `api_keys`.
pub record ApiKeyRow : Type 0 where
  pub id : ℕ
  pub user_id : Text
  pub name : Text
  pub key_hash : Text
  pub prefix : Text
  pub last_four : Text
  pub environment : Text
  pub created_at : ℕ
  pub last_used_at : Option ℕ
  pub revoked_at : Option ℕ

-- A row of `api_requests`; its serial `id` is left out, since nothing reads it.
pub record ApiRequestRow : Type 0 where
  pub user_id : Text
  pub api_key_id : Option ℕ
  pub method : Text
  pub endpoint : Text
  pub status_code : ℕ
  pub latency_ms : ℕ
  pub routing_latency_ms : Option ℕ
  pub environment : Text
  pub created_at : ℕ

-- A row of `webhook_events`.
pub record WebhookEventRow : Type 0 where
  pub event_id : Text
  pub provider : Text
  pub payment_id : Option Text
  pub payload_json : Option Text
  pub signature : Option Text
  pub received_at : ℕ

-- The argument of `scheduleApiRequestRecord`: what runs after the response.
pub record RequestRecord : Type 0 where
  pub user_id : Text
  pub api_key_id : Option ℕ
  pub method : Text
  pub endpoint : Text
  pub status_code : ℕ
  pub started_at : ℕ
  pub routing_latency_ms : Option ℕ
  pub environment : Option Mode

-- The state that the handlers share. `scheduled` holds the telemetry handed to `after`.
pub record World : Type 0 where
  pub payments : List PaymentRow
  pub api_keys : List ApiKeyRow
  pub api_requests : List ApiRequestRow
  pub webhook_events : List WebhookEventRow
  pub scheduled : List RequestRecord

-- `SELECT … WHERE p LIMIT 1` without ORDER BY: Postgres chooses among the rows that match.
pub record Sql : Type 1 where
  pub select_one : {Row : Type 0} → (Row → Bool) → List Row → Option Row
  pub select_one_sound :
      {Row : Type 0} (p : Row → Bool) (rows : List Row) (r : Row)
      → select_one p rows ≡ some r
      → Memᴰ r rows × (p r ≡ true)
  pub select_one_none :
      {Row : Type 0} (p : Row → Bool) (rows : List Row)
      → select_one p rows ≡ none
      → All (λ r. p r ≡ false) rows

-- `UPDATE … SET f WHERE p`
unfoldable pub update_where {ℓ} : {Row : Type ℓ} → (Row → Bool) → (Row → Row) → List Row → List Row
update_where p f [] = []
update_where p f (r ∷ rows) = (if p r then f r else r) ∷ update_where p f rows

-- `DELETE … WHERE p`
unfoldable pub delete_where {ℓ} : {Row : Type ℓ} → (Row → Bool) → List Row → List Row
delete_where p [] = []
delete_where p (r ∷ rows) = if p r then delete_where p rows else r ∷ delete_where p rows

-- `INSERT … ON CONFLICT DO UPDATE SET f`, where `p` holds of the row with the same primary key.
unfoldable pub upsert {ℓ} : {Row : Type ℓ} → (Row → Bool) → (Row → Row) → Row → List Row → List Row
upsert p f new [] = new ∷ []
upsert p f new (r ∷ rows) = if p r then f r ∷ rows else r ∷ upsert p f new rows

-- The row that the same statement gives back by `RETURNING`.
unfoldable pub upsert_returning {ℓ} :
    {Row : Type ℓ} → (Row → Bool) → (Row → Row) → Row → List Row → Row
upsert_returning p f new [] = new
upsert_returning p f new (r ∷ rows) = if p r then f r else upsert_returning p f new rows

-- `INSERT … ON CONFLICT DO NOTHING`
unfoldable pub insert_or_ignore {ℓ} : {Row : Type ℓ} → (Row → Bool) → Row → List Row → List Row
unfolding any
insert_or_ignore p new rows = if any p rows then rows else rows ++ new ∷ []

-- `eq(column, s)` on a nullable column: null equals nothing.
abbrev pub column_is : Option Text → Text → Bool
column_is none s = false
column_is (some t) s = t === s

-- The first row that matches, which is one choice that Postgres may make.
unfoldable pub first_match {ℓ} : {Row : Type ℓ} → (Row → Bool) → List Row → Option Row
first_match p [] = none
first_match p (r ∷ rows) = if p r then some r else first_match p rows
