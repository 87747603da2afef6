-- ===== src/Console/Ping.antt =====
-- apps/web/app/api/merchant/settings/test-webhook/route.ts: a signed ping to the merchant's endpoint. What
-- the endpoint does is an argument, and so are `JSON.stringify` and the text of the date.
use openwrapper.Prelude.{
  ℕ, ◌/◌, Bool, true, false, ◌&&◌, Option, none, some, ◌++◌, leb, ltb, length, take, if◌then◌else◌,
}
use openwrapper.Js.Text.{Text, codes, trim, ◌===◌, or_text}
use openwrapper.Js.Decimal.{show}
use openwrapper.Js.Json.{Json, int, str, obj, field, end, lookup}
use openwrapper.Store.{WebhookEventRow, insert_or_ignore}
use openwrapper.Console.Session.{SessionUser, Console, Result, done}
use openwrapper.Console.Schema.{trimmed, required, ◌>>=◌}
use openwrapper.Sdk.Signature.{sign_webhook_payload}

-- What `fetch` gives: a response with its text, or an exception with a name and a message.
pub data Delivery : Type 0 where
  arrived : (status : ℕ) → (text : Text) → Delivery
  failed : (name message : Text) → Delivery

pub record PingEnv : Type 0 where
  pub hmac_sha256 : Text → Text → Text
  pub stringify : Json → Text
  pub is_url : Text → Bool
  pub iso_date : Text
  pub random_hex : Text
  pub now : ℕ
  pub latency_ms : ℕ
  pub log_fails : Bool
  pub deliver : (url header payload : Text) → Delivery

pub data PingReply : Type 0 where
  refused : (status : ℕ) → (error : Text) → PingReply
  undelivered : (latency : ℕ) → (error message : Text) → PingReply
  delivered : (success : Bool) → (status latency : ℕ) → (snippet message : Text) → PingReply

module _ (env : PingEnv) where
  -- `testWebhookSchema`
  unfoldable pub test_webhook_schema : Json → Option (Text × Text)
  unfolding lookup trim
  test_webhook_schema (obj fs) = do
    url ← required (trimmed env.is_url) (lookup (codes "webhookUrl") fs)
    secret ← required (trimmed (λ s. leb 16 (length s))) (lookup (codes "webhookSecret") fs)
    some (url, secret)
  test_webhook_schema _ = none

  abbrev event_id : Text
  event_id = codes "evt_ping_" ++ env.random_hex

  unfoldable pub ping_payload : Text → Text
  ping_payload merchant = env.stringify (
      obj (
        field (codes "event_id") (str event_id) (
          field (codes "event_type") (str (codes "openwrapper.ping")) (
            field (codes "created_at") (str env.iso_date) (
              field (codes "environment") (str (codes "live")) (
                field (codes "data")
                  (obj (
                    field (codes "message") (str (codes "OpenWrapper webhook verification ping")) (
                      field (codes "merchant_id") (str merchant)
                        (field (codes "timestamp") (int env.now) end))))
                  end))))))

  abbrev pub ping_header : Text → Text → Text
  ping_header merchant secret =
      (sign_webhook_payload env.hmac_sha256 (env.now / 1_000) (ping_payload merchant) secret).header

  abbrev ping_event : Text → Text → WebhookEventRow
  ping_event merchant secret = record {
    event_id = event_id;
    provider = codes "openwrapper_system";
    payment_id = none;
    payload_json = some (ping_payload merchant);
    signature = some (ping_header merchant secret);
    received_at = env.now;
  }

  -- The audit log; an error of the database is swallowed.
  abbrev log_ping : Text → Text → Console → Console
  log_ping merchant secret c = if env.log_fails then c else record c {
    world = record c.world {
      webhook_events =
          insert_or_ignore (λ (e : WebhookEventRow). e.event_id === event_id)
            (ping_event merchant secret) c.world.webhook_events;
    };
  }

  abbrev error_message : Text → Text → Text
  error_message name message =
      if name === codes "AbortError"
      then codes "Request timed out after 10 seconds."
      else or_text (some message) (codes "Failed to reach destination URL.")

  abbrev ping_message : Bool → ℕ → Text
  ping_message true status =
      codes "Ping delivered successfully (HTTP "
      ++ (show status ++ (codes " OK, latency: " ++ (show env.latency_ms ++ codes "ms)")))
  ping_message false status =
      codes "Destination responded with HTTP "
      ++ (show status ++ (codes " in " ++ (show env.latency_ms ++ codes "ms")))

  abbrev is_success : ℕ → Bool
  is_success status = leb 200 status && ltb status 300

  abbrev pub ping_reply : Delivery → PingReply
  ping_reply (arrived status text) =
      delivered (is_success status) status env.latency_ms (take 100 text)
        (ping_message (is_success status) status)
  ping_reply (failed name message) = undelivered env.latency_ms (error_message name message) (
      codes "Failed to deliver ping: "
      ++ (error_message name message ++ (codes " (" ++ (show env.latency_ms ++ codes "ms)"))))

  abbrev ping_parsed : Text → Option (Text × Text) → Console → Result PingReply
  ping_parsed merchant none c =
      done
        (refused 400 (
          codes
            "Please enter a valid Webhook Destination URL (e.g. https://your-domain.com/webhook)."))
        c
  ping_parsed merchant (some (url, secret)) c =
      done (ping_reply (env.deliver url (ping_header merchant secret) (ping_payload merchant)))
        (log_ping merchant secret c)

  -- `POST`; the body is none where `request.json()` throws.
  unfoldable pub test_webhook : Option SessionUser → Option Json → Console → Result PingReply
  unfolding test_webhook_schema ping_payload insert_or_ignore show
  test_webhook none body c = done (refused 401 (codes "Unauthorized")) c
  test_webhook (some user) none c = done (refused 400 (codes "Invalid JSON payload")) c
  test_webhook (some user) (some body) c = ping_parsed user.id (test_webhook_schema body) c
