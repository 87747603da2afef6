-- ===== src/Webhooks/Shared.antt =====
-- What the four webhook handlers have in common: the surroundings, the reply, the guard on a payment
-- that has ended, and the audit row.
use openwrapper.Prelude.{ℕ, Bool, not, ◌&&◌, Option, none, some, List, ltb, if◌then◌else◌, length}
use openwrapper.Js.Text.{Text, codes, ◌===◌}
use openwrapper.Js.Json.{Json, null}
use openwrapper.Store.{Sql, PaymentRow, WebhookEventRow, update_where, insert_or_ignore}
use openwrapper.Store.Handler.{Handler, next, raise, pure, answer}
use openwrapper.Access.Authenticator.{Headers}
use openwrapper.Access.BodyReader.{BodyText, body_ok, too_large}
use openwrapper.Ledger.Status.{is_terminal}
use openwrapper.Ledger.Persist.{has_id}

-- The two fields of a checkout session that the handler reads, beside its id.
pub record StripeEvent : Type 0 where
  pub id : Text
  pub type : Text
  pub session_id : Option Text
  pub payment_status : Text

-- `construct_event` is `stripe.webhooks.constructEvent`: none where the signature does not verify.
-- `db_fails` says that the database throws at the first statement.
pub record HookEnv : Type 1 where
  pub sql : Sql
  pub parse_json : Text → Option Json
  pub decode : List ℕ → Text
  pub vars : Text → Option Text
  pub sha256 : Text → Text
  pub hmac_sha256 : Text → Text → Text
  pub hmac_sha512 : Text → Text → Text
  pub construct_event : Text → Text → Text → Option StripeEvent
  pub uuid : Text
  pub now : ℕ
  pub db_fails : Bool

-- A request as a webhook handler reads it; `query_hmac` is the parameter `hmac` of its URL.
pub record HookRequest : Type 0 where
  pub headers : Headers
  pub body : Option (List (List ℕ))
  pub query_hmac : Option Text

pub data HookBody : Type 0 where
  error : Text → HookBody
  received : (status : Text) → HookBody
  received_event : (event_id : Text) → HookBody

pub record HookReply : Type 0 where
  pub status : ℕ
  pub body : HookBody

abbrev pub reject : {A : Type 0} → ℕ → Text → Handler HookReply A
reject status message w = answer (record { status = status; body = error message }) w

abbrev pub max_hook_body : ℕ
max_hook_body = 1_000_000

abbrev pub require_body : BodyText → Handler HookReply Text
require_body (body_ok text) = pure text
require_body too_large = reject 413 (codes "Request body too large")

-- `JSON.parse(rawBody)`
abbrev pub require_json : Option Json → Handler HookReply Json
require_json (some v) = pure v
require_json none = reject 400 (codes "Invalid JSON")

-- Reading a field of null throws.
abbrev pub require_object : Json → Handler HookReply Json
require_object null w = raise w
require_object v w = next v w

abbrev pub too_long : Text → Bool
too_long s = ltb 255 (length s)

-- `isTerminal && found.status !== status`
unfoldable pub is_illegal : PaymentRow → Text → Bool
unfolding is_terminal ◌===◌
is_illegal found status = is_terminal found.status && not (found.status === status)

-- `if (!isIllegal) await db.update(payments).set(…).where(eq(payments.id, found.id))`
unfoldable pub apply_status :
    PaymentRow → Text → (PaymentRow → PaymentRow) → List PaymentRow → List PaymentRow
unfolding is_illegal update_where
apply_status found status set rows =
    if is_illegal found status then rows else update_where (has_id found.id) set rows

abbrev pub apply_found :
    Option PaymentRow
    → Text
    → (PaymentRow → PaymentRow → PaymentRow)
    → List PaymentRow
    → List PaymentRow
apply_found none status set rows = rows
apply_found (some found) status set rows = apply_status found status (set found) rows

abbrev pub id_of : Option PaymentRow → Option Text
id_of none = none
id_of (some r) = some r.id

-- The audit row of an event, kept once for each event id.
unfoldable pub record_event :
    Text → Text → Option Text → ℕ → List WebhookEventRow → List WebhookEventRow
unfolding insert_or_ignore ◌===◌
record_event event_id provider payment_id now rows =
    insert_or_ignore (λ (r : WebhookEventRow). r.event_id === event_id)
      (record {
        event_id = event_id;
        provider = provider;
        payment_id = payment_id;
        payload_json = none;
        signature = none;
        received_at = now;
      })
      rows
