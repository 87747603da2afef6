-- ===== src/Console/Tests.antt =====
-- The console's handlers on concrete inputs.
use openwrapper.Prelude.{◌≢◌, ◌∷◌, ◌≡◌, refl, none, some, [], false}
use openwrapper.Js.Text.{===_iff, member, codes, ◌===◌}
use openwrapper.Js.Json.{Json, obj, field, end, str}
use openwrapper.Store.{first_match, live}
use openwrapper.Store.Laws.{first_sql}
use openwrapper.Access.Authenticator.{authenticate_token}
use openwrapper.Console.Session.{SettingsRow, Console, ConsoleEnv, SessionUser}
use openwrapper.Console.Keys.{created, post_keys, revoke_api_key, KeyView}
use openwrapper.Console.Keys.Foreign.{run_call, posts, IsAllowed, run_call-IsAllowed}
use openwrapper.Console.Keys.Lifecycle.{
  key_for, authenticate_token-post_keys, authenticate_token-revoke_api_key,
}
use openwrapper.Console.Settings.{
  get_merchant_settings, generate_webhook_secret, settings_of, create_settings, MerchantSettings,
  update_merchant_settings, SettingsUpdate,
}
use openwrapper.Console.Settings.Overlay.{update_merchant_settings-overlay, OthersKept, overlay}
use openwrapper.Console.Settings.Race.{create_settings-raced}

abbrev no_console : Console
no_console = record {
  world = record {
    payments = [];
    api_keys = [];
    api_requests = [];
    webhook_events = [];
    scheduled = [];
  };
  cache = [];
  settings = [];
}

abbrev console_env : ConsoleEnv
console_env = record {
  sha256 = λ s. s;
  random_secret = codes "x9";
  serial = 4;
  now = 7;
  db_fails = false;
}

abbrev amal : SessionUser
amal = record { id = codes "u1"; name = codes "Amal"; email = codes "amal@example.com" }

abbrev key_body : Json
key_body = obj (field (codes "name") (str (codes "Shop")) end)

abbrev with_key : Console
with_key = (post_keys console_env (some amal) (some key_body) no_console).1

abbrev new_view : KeyView
new_view = record {
  id = 4;
  name = codes "Shop";
  prefix = codes "ow_live_x9";
  last_four = codes "e_x9";
  environment = live;
  created_at = 7;
  last_used_at = none;
}

posted :
    post_keys console_env (some amal) (some key_body) no_console
    ≡ (some (created (codes "ow_live_x9") new_view live), with_key)
unfolding post_keys
posted = refl

authenticate_token-post_keys_example :
    authenticate_token first_sql (λ s. s) none (codes "ow_live_x9") with_key.world
    ≡ some (key_for console_env (codes "u1") (codes "ow_live_x9") live)
unfolding ◌===◌ member
authenticate_token-post_keys_example =
    authenticate_token-post_keys first_sql none console_env amal (some key_body) no_console with_key
      (codes "ow_live_x9") new_view live posted refl

abbrev without_key : Console
without_key = (revoke_api_key console_env (some amal) (some 4) with_key).1

authenticate_token-revoke_api_key_example :
    authenticate_token first_sql (λ s. s) none (codes "ow_live_x9") without_key.world ≡ none
unfolding ◌===◌ member revoke_api_key
authenticate_token-revoke_api_key_example =
    authenticate_token-revoke_api_key first_sql none console_env console_env amal (some key_body)
      no_console with_key without_key (codes "ow_live_x9") new_view live posted refl refl

run_call-IsAllowed_example :
    IsAllowed
      (λ _. none)
      console_env
      (some amal)
      no_console
      (run_call (λ _. none) console_env (some amal) (posts (some key_body)) no_console).1
run_call-IsAllowed_example =
    run_call-IsAllowed (λ _. none) console_env (some amal) (posts (some key_body)) no_console

abbrev stored : SettingsRow
stored = record {
  user_id = codes "u1";
  org_name = codes "Shop";
  billing_email = none;
  currency = codes "EGP";
  webhook_url = none;
  webhook_secret = codes "whsec_1";
  brand_logo_url = none;
  brand_color = none;
  brand_name = none;
  created_at = 1;
  updated_at = 1;
}

abbrev with_settings : Console
with_settings = record no_console { settings = stored ∷ [] }

abbrev new_color : SettingsUpdate
new_color = record {
  org_name = none;
  billing_email = none;
  currency = none;
  webhook_url = none;
  webhook_secret = none;
  brand_logo_url = none;
  brand_color = some (codes "#123456");
  brand_name = none;
}

update_merchant_settings-overlay_example :
    (c' : Console) × (update_merchant_settings console_env (codes "u1") new_color with_settings
      ≡ (some (overlay 7 new_color (settings_of none none stored)), c'))
    × (get_merchant_settings console_env (codes "u1") none none c'
        ≡ (some (overlay 7 new_color (settings_of none none stored)), c'))
    × OthersKept (codes "u1") with_settings c'
unfolding first_match ◌===◌
update_merchant_settings-overlay_example =
    update_merchant_settings-overlay console_env (codes "u1") new_color with_settings stored refl
      refl

create_settings-raced_example :
    (s : MerchantSettings) × (create_settings console_env (codes "u1") none none with_settings
      ≡ (some s, with_settings))
    × (s.webhook_secret ≡ generate_webhook_secret console_env)
    × (s.webhook_secret ≢ codes "whsec_1")
unfolding first_match ◌===◌
create_settings-raced_example =
    create_settings-raced console_env (codes "u1") none none with_settings stored refl
      (λ e. cc ((===_iff (codes "whsec_1") (codes "whsec_x9")).1 e))
