-- ===== src/Access/Authenticator.antt =====
-- apps/web/lib/api-request-authenticator.ts: `authenticateApiRequest`, and the telemetry that is
-- written after the response.
use openwrapper.Prelude.{
  ℕ, zero, suc, ◌-◌, Bool, true, false, not, ◌&&◌, ◌||◌, Option, none, some, List, [], ◌∷◌, ◌++◌,
  if◌then◌else◌, take, ◌==◌,
}
use Prim.Native.Nat.{max}
use openwrapper.Js.Text.{
  Text, codes, ◌===◌, truthy, to_lower, trim, trim_start, is_space, starts_with, member, or_default,
  split_list,
}
use openwrapper.Store.{
  Mode, live, test, mode_text, ApiKeyRow, RequestRecord, World, Sql, update_where,
}
use openwrapper.Access.ApiKeys.{hash_api_key, get_api_key_environment}

-- The headers that the handlers read, by their names in lower case; a request is the headers, the
-- query and the body.
abbrev pub Headers : Type 0
Headers = Text → Option Text

-- `value.replace(/^Bearer\s+/i, "")` where the pattern matches, and none where it does not.
unfoldable pub after_bearer : Text → Option Text
unfolding starts_with to_lower trim_start
after_bearer (b ∷ e ∷ a ∷ r ∷ e' ∷ r' ∷ c ∷ s) =
    if starts_with (to_lower (b ∷ e ∷ a ∷ r ∷ e' ∷ r' ∷ [])) (codes "bearer") && is_space c
    then some (trim_start s)
    else none
after_bearer _ = none

abbrev pub truthy_opt : Option Text → Text
truthy_opt none = []
truthy_opt (some s) = s

-- The token of `authenticateApiRequest`: the Authorization header if it is a bearer token, or else
-- the X-API-Key header.
abbrev from_x_api_key : Option Text → Text
from_x_api_key none = []
from_x_api_key (some s) = trim s

abbrev bearer_or : Option Text → Text → Text
bearer_or none other = other
bearer_or (some s) other = trim s

abbrev bearer_of : Option Text → Option Text
bearer_of none = none
bearer_of (some s) = after_bearer s

unfoldable pub token_of : Headers → Text
unfolding after_bearer trim
token_of headers =
    bearer_or (bearer_of (headers (codes "authorization")))
      (from_x_api_key (headers (codes "x-api-key")))

-- What a handler reads of the key: `id` 0 is the sandbox key.
pub record AuthKey : Type 0 where
  pub id : ℕ
  pub user_id : Text
  pub prefix : Text
  pub environment : Mode

abbrev pub sandbox_user : Text
sandbox_user = codes "usr_sandbox_demo"

abbrev pub is_sandbox_token : List Text → Text → Bool
is_sandbox_token ambient token =
    token === codes "ow_demo_sandbox_key"
    || token === codes "ow_test_sandbox_demo"
    || member ambient token

-- `(key.environment as "live" | "test") || getApiKeyEnvironment(key.prefix)`: the column holds one
-- of the two words or is empty.
abbrev pub mode_of_row : Text → Text → Mode
mode_of_row environment prefix =
    if environment === codes "test"
    then test
    else if truthy environment
    then live
    else get_api_key_environment prefix

abbrev pub key_of_row : Option ApiKeyRow → Option AuthKey
key_of_row none = none
key_of_row (some k) = some (record {
  id = k.id;
  user_id = k.user_id;
  prefix = k.prefix;
  environment = mode_of_row k.environment k.prefix;
})

abbrev pub is_null : Option ℕ → Bool
is_null none = true
is_null (some _) = false

-- `eq(keyHash) and isNull(revokedAt)`
abbrev pub usable : Text → ApiKeyRow → Bool
usable hash k = k.key_hash === hash && is_null k.revoked_at

module _ (sql : Sql) (sha256 : Text → Text) (ambient_keys : Option Text) where
  abbrev pub ambient_list : List Text
  ambient_list = elim ambient_keys [ none ↦ [] | some s ↦ split_list s ]

  unfoldable pub authenticate_token : Text → World → Option AuthKey
  authenticate_token token w =
      if not (truthy token)
      then none
      else if is_sandbox_token ambient_list token
      then some (record {
        id = 0;
        user_id = sandbox_user;
        prefix = take 12 token;
        environment = get_api_key_environment token;
      })
      else key_of_row (sql.select_one (usable (hash_api_key sha256 token)) w.api_keys)

  -- `authenticateApiRequest`
  unfoldable pub authenticate_api_request : Headers → World → Option AuthKey
  unfolding authenticate_token token_of
  authenticate_api_request headers w = authenticate_token (token_of headers) w

-- `input.apiKeyId && input.apiKeyId > 0 ? input.apiKeyId : null`
abbrev valid_key_id : Option ℕ → Option ℕ
valid_key_id none = none
valid_key_id (some zero) = none
valid_key_id (some (suc n)) = some (suc n)

abbrev pub touch : Option ℕ → Text → ℕ → List ApiKeyRow → List ApiKeyRow
touch none user now keys = keys
touch (some id) user now keys =
    update_where (λ (k : ApiKeyRow). k.id == id && k.user_id === user)
      (λ (k : ApiKeyRow). record k { last_used_at = some now }) keys

-- `recordApiRequest`, at the time `now` with the clock of `performance.now()` at `clock`.
unfoldable pub record_api_request : ℕ → ℕ → RequestRecord → World → World
unfolding update_where
record_api_request now clock r w =
    let id = valid_key_id r.api_key_id in
    record w {
      api_requests =
          w.api_requests
          ++ record {
            user_id = r.user_id;
            api_key_id = id;
            method = r.method;
            endpoint = r.endpoint;
            status_code = r.status_code;
            latency_ms = max 1 (clock - r.started_at);
            routing_latency_ms = r.routing_latency_ms;
            environment = mode_text (or_default r.environment live);
            created_at = now;
          }
            ∷ [];
      api_keys = touch id r.user_id now w.api_keys;
    }
