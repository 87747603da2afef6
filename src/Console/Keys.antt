-- ===== src/Console/Keys.antt =====
-- apps/web/app/api/api-keys/route.ts and apps/web/app/actions/api-keys.ts. An action's reply is written
-- as the route's; its status is not sent.
pub mod Foreign
pub mod Lifecycle
use openwrapper.Prelude.{
  ◌||◌, ℕ, zero, suc, Bool, true, false, ◌&&◌, Option, none, some, List, [], ◌∷◌, ◌++◌, map, any,
  keep, if◌then◌else◌, ◌==◌,
}
use openwrapper.Js.Text.{Text, codes, ◌===◌, trim}
use openwrapper.Js.Json.{Json, null, bool, int, num, str, arr, obj, get, lookup, to_string}
use openwrapper.Store.{Mode, live, test, mode_text, ApiKeyRow, delete_where}
use openwrapper.Store.Newest.{newest_first}
use openwrapper.Access.ApiKeys.{issue_api_key, IssuedKey}
use openwrapper.Access.Authenticator.{is_null, mode_of_row}
use openwrapper.Dashboard.Cache.{invalidate}
use openwrapper.Console.Session.{SessionUser, Console, ConsoleEnv, Result, done, thrown}
use openwrapper.Console.Schema.{trimmed, between, one_of, required, ◌>>=◌}

-- The columns that the console shows of a key.
pub record KeyView : Type 0 where
  pub id : ℕ
  pub name : Text
  pub prefix : Text
  pub last_four : Text
  pub environment : Mode
  pub created_at : ℕ
  pub last_used_at : Option ℕ

abbrev pub view_of : ApiKeyRow → KeyView
view_of k = record {
  id = k.id;
  name = k.name;
  prefix = k.prefix;
  last_four = k.last_four;
  environment = mode_of_row k.environment k.prefix;
  created_at = k.created_at;
  last_used_at = k.last_used_at;
}

pub data KeyReply : Type 0 where
  refused : (status : ℕ) → (error : Text) → KeyReply
  listed : List KeyView → KeyReply
  created : (key : Text) → KeyView → Mode → KeyReply
  removed : KeyReply

abbrev pub unauthorized : KeyReply
unauthorized = refused 401 (codes "Unauthorized")

abbrev invalid_json : KeyReply
invalid_json = refused 400 (codes "Invalid JSON payload")

abbrev pub is_owner : Text → ApiKeyRow → Bool
is_owner user k = k.user_id === user

abbrev pub is_key_of : ℕ → Text → ApiKeyRow → Bool
is_key_of id user k = k.id == id && k.user_id === user

abbrev env_filter : Option Text → Option Mode
env_filter none = none
env_filter (some s) =
    if s === codes "live" then some live else if s === codes "test" then some test else none

abbrev in_environment : Option Mode → ApiKeyRow → Bool
in_environment none k = true
in_environment (some m) k = k.environment === mode_text m

-- `GET`, with the parameter `environment` of the URL.
unfoldable pub get_keys : ConsoleEnv → Option SessionUser → Option Text → Console → Result KeyReply
unfolding newest_first keep
get_keys env none param c = done unauthorized c
get_keys env (some user) param c =
    if env.db_fails
    then thrown c
    else done
        (listed (
          map view_of (
            newest_first (λ (k : ApiKeyRow). k.created_at)
              (keep
                (λ k.
                  is_owner user.id k && is_null k.revoked_at && in_environment (env_filter param) k)
                c.world.api_keys))))
        c

abbrev mode_named : Text → Mode
mode_named s = if s === codes "test" then test else live

abbrev environment_schema : Option Json → Option Mode
environment_schema none = some live
environment_schema (some v) = do
  s ← one_of (codes "live" ∷ codes "test" ∷ []) v
  some (mode_named s)

-- `createKeySchema`
unfoldable pub create_key_schema : Json → Option (Text × Mode)
unfolding lookup trim
create_key_schema (obj fs) = do
  name ← required (trimmed (between 2 40)) (lookup (codes "name") fs)
  mode ← environment_schema (lookup (codes "environment") fs)
  some (name, mode)
create_key_schema _ = none

abbrev pub row_of : ConsoleEnv → Text → Text → IssuedKey → ApiKeyRow
row_of env user name issued = record {
  id = env.serial;
  user_id = user;
  name = name;
  key_hash = issued.key_hash;
  prefix = issued.prefix;
  last_four = issued.last_four;
  environment = mode_text issued.environment;
  created_at = env.now;
  last_used_at = none;
  revoked_at = none;
}

abbrev pub with_keys : List ApiKeyRow → Console → Console
with_keys keys c = record c { world = record c.world { api_keys = keys } }

abbrev pub forget : Text → Option Mode → Console → Console
forget user m c = record c { cache = invalidate (some user) m c.cache }

-- `db.insert(apiKeys)`: the hash of a key is unique.
abbrev pub insert_key : ConsoleEnv → ApiKeyRow → Console → Option Console
insert_key env row c =
    if env.db_fails || any (λ (k : ApiKeyRow). k.key_hash === row.key_hash) c.world.api_keys
    then none
    else some (with_keys (c.world.api_keys ++ row ∷ []) c)

abbrev pub created_reply : IssuedKey → ApiKeyRow → KeyReply
created_reply issued row = created issued.key (view_of row) issued.environment

abbrev pub after_insert :
    Text → Option Mode → IssuedKey → ApiKeyRow → Console → Option Console → Result KeyReply
after_insert user m issued row c none = thrown c
after_insert user m issued row c (some c') = done (created_reply issued row) (forget user m c')

-- A new key for the user; `m` is what the dashboard's cache forgets of the user.
unfoldable pub create_key :
    ConsoleEnv → Text → Option Mode → Text → Mode → Console → Result KeyReply
unfolding issue_api_key invalidate any
create_key env user m name mode c =
    let issued = issue_api_key env.sha256 env.random_secret mode in
    let row = row_of env user name issued in after_insert user m issued row c (insert_key env row c)

abbrev pub post_parsed : ConsoleEnv → Text → Option (Text × Mode) → Console → Result KeyReply
post_parsed env user none c =
    done (refused 400 (codes "Provide a valid name (2-40 characters) and environment.")) c
post_parsed env user (some (name, mode)) c = create_key env user (some mode) name mode c

-- `POST`; the body is none where `request.json()` throws.
unfoldable pub post_keys : ConsoleEnv → Option SessionUser → Option Json → Console → Result KeyReply
unfolding create_key create_key_schema
post_keys env none body c = done unauthorized c
post_keys env (some user) none c = done invalid_json c
post_keys env (some user) (some body) c = post_parsed env user.id (create_key_schema body) c

-- `db.delete(apiKeys).where(p)`
abbrev pub delete_keys_where : ConsoleEnv → Text → (ApiKeyRow → Bool) → Console → Result KeyReply
delete_keys_where env user p c =
    if env.db_fails
    then thrown c
    else done removed (forget user none (with_keys (delete_where p c.world.api_keys) c))

-- `Number(v)`, none where it is no natural number; `number_of` reads a text, and undefined is NaN.
abbrev pub js_number : (Text → Option ℕ) → Option Json → Option ℕ
js_number number_of none = none
js_number number_of (some null) = some 0
js_number number_of (some (bool b)) = if b then some 1 else some 0
js_number number_of (some (int n)) = some n
js_number number_of (some (num s)) = none
js_number number_of (some (str s)) = number_of s
js_number number_of (some (arr vs)) = number_of (to_string (arr vs))
js_number number_of (some (obj fs)) = none

-- `body.all === true`
abbrev pub is_true : Option Json → Bool
is_true (some (bool b)) = b
is_true _ = false

abbrev pub is_null_json : Json → Bool
is_null_json null = true
is_null_json _ = false

abbrev pub delete_numbered : ConsoleEnv → Text → Text → Option ℕ → Console → Result KeyReply
delete_numbered env user message none c = done (refused 400 message) c
delete_numbered env user message (some zero) c = done (refused 400 message) c
delete_numbered env user message (some (suc n)) c =
    delete_keys_where env user (is_key_of (suc n) user) c

module _ (number_of : Text → Option ℕ) where
  -- Reading a property of null throws.
  abbrev pub delete_body : ConsoleEnv → Text → Json → Console → Result KeyReply
  delete_body env user body c =
      if is_null_json body
      then thrown c
      else if is_true (get body (codes "all"))
      then delete_keys_where env user (is_owner user) c
      else delete_numbered env user (codes "Invalid key ID.")
          (js_number number_of (get body (codes "id"))) c

  -- `DELETE`
  unfoldable pub delete_keys :
      ConsoleEnv → Option SessionUser → Option Json → Console → Result KeyReply
  unfolding delete_where invalidate get to_string
  delete_keys env none body c = done unauthorized c
  delete_keys env (some user) none c = done invalid_json c
  delete_keys env (some user) (some body) c = delete_body env user.id body c

-- `createApiKey` of the server actions; without a session it throws.
unfoldable pub create_api_key :
    ConsoleEnv → Option SessionUser → Text → Mode → Console → Result KeyReply
unfolding create_key trim
create_api_key env none name mode c = thrown c
create_api_key env (some user) name mode c =
    if between 2 40 (trim name)
    then create_key env user.id none (trim name) mode c
    else done (refused 400 (codes "Use a name between 2 and 40 characters.")) c

-- `revokeApiKey`; the number is none where it is no natural number.
unfoldable pub revoke_api_key :
    ConsoleEnv → Option SessionUser → Option ℕ → Console → Result KeyReply
unfolding delete_where invalidate
revoke_api_key env none id c = thrown c
revoke_api_key env (some user) id c = delete_numbered env user.id (codes "Invalid key.") id c

-- `removeAllKeysAction`
unfoldable pub remove_all_keys : ConsoleEnv → Option SessionUser → Console → Result KeyReply
unfolding delete_where invalidate
remove_all_keys env none c = thrown c
remove_all_keys env (some user) c = delete_keys_where env user.id (is_owner user.id) c
