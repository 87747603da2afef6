-- ===== src/Platform/Health.antt =====
-- GET of apps/web/app/api/[version]/health/route.ts. The probes of the database and of the gateway are
-- arguments, and so are the platform's `new URL` and the accepted API key.
use openwrapper.Prelude.{ℕ, Bool, true, false, Option, none, some, ◌++◌, if◌then◌else◌}
use openwrapper.Js.Text.{Text, codes, ◌or◌, strip_slashes}
use openwrapper.Store.{World, RequestRecord}
use openwrapper.Store.Handler.{Handler, ◌>>=◌, ◌>>◌, pure, gets, answer, schedule}
use openwrapper.Access.Version.{VersionCheck, valid, unsupported, validate_api_version}
use openwrapper.Access.Authenticator.{AuthKey, Headers}
use openwrapper.Gateway.Bridge.{Url, get_gateway_url}
use openwrapper.Platform.Origin.{ParsedUrl, resolve_public_origin}

pub data GatewayState : Type 0 where
  connected unreachable not_configured : GatewayState

-- `alive` is the answer without a key; a report has the status 200 or 503.
pub data HealthReply : Type 0 where
  bad_version : (raw : Text) → HealthReply
  alive : (api_version : Text) → HealthReply
  report :
      (status : ℕ) → (api_version origin : Text) → (database : Bool) → GatewayState → HealthReply

-- `probe_gateway` is none where `fetch` throws, and `response.ok` otherwise.
pub record HealthEnv : Type 0 where
  pub vars : Text → Option Text
  pub parse_url : Text → Option Url
  pub parse_origin : Text → Option ParsedUrl
  pub db_healthy : Bool
  pub probe_gateway : Text → Option Bool
  pub started_at : ℕ

abbrev is_ok : Option Bool → Bool
is_ok none = false
is_ok (some ok) = ok

abbrev health_status : Bool → ℕ
health_status true = 200
health_status false = 503

module _ (env : HealthEnv) (headers : Headers) where
  -- `siteOrigin(request)`
  abbrev site_origin : Text
  site_origin =
      resolve_public_origin env.parse_origin env.vars
        (headers (codes "x-forwarded-host") or headers (codes "host"))
        (headers (codes "x-forwarded-proto"))

  abbrev gateway_state : Text → Option Text → GatewayState
  gateway_state version none = not_configured
  gateway_state version (some url) =
      if is_ok
        (env.probe_gateway (strip_slashes url ++ (codes "/" ++ (version ++ codes "/health"))))
      then connected
      else unreachable

  abbrev record_of : Text → AuthKey → RequestRecord
  record_of version key = record {
    user_id = key.user_id;
    api_key_id = some key.id;
    method = codes "GET";
    endpoint = codes "/api/" ++ (version ++ codes "/health");
    status_code = health_status env.db_healthy;
    started_at = env.started_at;
    routing_latency_ms = none;
    environment = none;
  }

  abbrev checked_version : VersionCheck → Handler HealthReply Text
  checked_version (valid version) = pure version
  checked_version (unsupported raw) = answer (bad_version raw)

  abbrev reported : Text → Option AuthKey → Handler HealthReply HealthReply
  reported version none = answer (alive version)
  reported version (some key) = do
    schedule (record_of version key)
    pure (
        report (health_status env.db_healthy) version site_origin env.db_healthy (
          gateway_state version
            (get_gateway_url env.parse_url (env.vars (codes "OPENWRAPPER_GATEWAY_URL")))))

  -- `GET`, with the version of the path.
  unfoldable pub get_health : (World → Option AuthKey) → Text → Handler HealthReply HealthReply
  unfolding validate_api_version get_gateway_url resolve_public_origin strip_slashes
  get_health authenticate raw_version = do
    version ← checked_version (validate_api_version raw_version)
    key ← gets authenticate
    reported version key
