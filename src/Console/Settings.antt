-- ===== src/Console/Settings.antt =====
-- apps/web/lib/merchant-settings-service.ts
pub mod Overlay
pub mod Race
pub mod Routes
use openwrapper.Prelude.{
  ℕ, Bool, true, false, ◌&&◌, ◌||◌, Option, none, some, List, [], ◌∷◌, ◌++◌, leb, length, every,
  any, ◌==◌, if◌then◌else◌,
}
use openwrapper.Js.Text.{Text, codes, ◌===◌, trim, or_default, present, member}
use openwrapper.Js.Json.{Json, str, obj, Fields, lookup}
use openwrapper.Store.{insert_or_ignore, upsert, first_match}
use openwrapper.Console.Session.{
  SessionUser, SettingsRow, Console, ConsoleEnv, Result, done, thrown,
}
use openwrapper.Console.Schema.{trimmed, between, one_of, optional, ◌>>=◌}

-- `MerchantSettingsData`
pub record MerchantSettings : Type 0 where
  pub user_id : Text
  pub org_name : Text
  pub billing_email : Text
  pub currency : Text
  pub webhook_url : Text
  pub webhook_secret : Text
  pub brand_logo_url : Text
  pub brand_color : Text
  pub brand_name : Text
  pub created_at : Option ℕ
  pub updated_at : Option ℕ

-- `Partial<Omit<MerchantSettingsData, …>>`; none is undefined.
pub record SettingsUpdate : Type 0 where
  pub org_name : Option Text
  pub billing_email : Option Text
  pub currency : Option Text
  pub webhook_url : Option Text
  pub webhook_secret : Option Text
  pub brand_logo_url : Option Text
  pub brand_color : Option Text
  pub brand_name : Option Text

abbrev pub generate_webhook_secret : ConsoleEnv → Text
generate_webhook_secret env = codes "whsec_" ++ env.random_secret

abbrev pub has_user : Text → SettingsRow → Bool
has_user user r = r.user_id === user

abbrev default_color : Text
default_color = codes "#6366f1"

-- `a ?? b ?? c`
abbrev first_of : Option Text → Option Text → Text → Text
first_of none b c = or_default b c
first_of (some a) b c = a

abbrev pub settings_of : Option Text → Option Text → SettingsRow → MerchantSettings
settings_of default_name default_email row = record {
  user_id = row.user_id;
  org_name = row.org_name;
  billing_email = first_of row.billing_email default_email [];
  currency = row.currency;
  webhook_url = or_default row.webhook_url [];
  webhook_secret = row.webhook_secret;
  brand_logo_url = or_default row.brand_logo_url [];
  brand_color = or_default row.brand_color default_color;
  brand_name = first_of row.brand_name default_name [];
  created_at = some row.created_at;
  updated_at = some row.updated_at;
}

abbrev org_name_for : Option Text → Text
org_name_for none = codes "My Organization"
org_name_for (some []) = codes "My Organization"
org_name_for (some (c ∷ s)) = (c ∷ s) ++ codes "'s Organization"

-- The row of a user who has none, by the columns' defaults.
abbrev pub initial_row : ConsoleEnv → Text → Option Text → Option Text → SettingsRow
initial_row env user default_name default_email = record {
  user_id = user;
  org_name = org_name_for default_name;
  billing_email = some (or_default default_email []);
  currency = codes "EGP";
  webhook_url = some [];
  webhook_secret = generate_webhook_secret env;
  brand_logo_url = some [];
  brand_color = some default_color;
  brand_name = some (or_default default_name (codes "My Brand"));
  created_at = env.now;
  updated_at = env.now;
}

abbrev pub without_times : MerchantSettings → MerchantSettings
without_times s = record s { created_at = none; updated_at = none }

abbrev pub find_settings : Text → Console → Option SettingsRow
find_settings user c = first_match (has_user user) c.settings

-- `getMerchantSettings` behind a lookup that found nothing.
unfoldable pub create_settings :
    ConsoleEnv → Text → Option Text → Option Text → Console → Result MerchantSettings
unfolding insert_or_ignore
create_settings env user default_name default_email c =
    let row = initial_row env user default_name default_email in
    done (without_times (settings_of none none row))
      (record c { settings = insert_or_ignore (has_user user) row c.settings })

abbrev found_or_created :
    ConsoleEnv
    → Text
    → Option Text
    → Option Text
    → Option SettingsRow
    → Console
    → Result MerchantSettings
found_or_created env user default_name default_email (some row) c =
    done (settings_of default_name default_email row) c
found_or_created env user default_name default_email none c =
    create_settings env user default_name default_email c

-- `getMerchantSettings`, with nothing between its two statements.
unfoldable pub get_merchant_settings :
    ConsoleEnv → Text → Option Text → Option Text → Console → Result MerchantSettings
unfolding create_settings first_match
get_merchant_settings env user default_name default_email c =
    if env.db_fails
    then thrown c
    else found_or_created env user default_name default_email (find_settings user c) c

-- The values of the insert.
abbrev pub new_row : ConsoleEnv → Text → SettingsUpdate → SettingsRow
new_row env user d = record {
  user_id = user;
  org_name = or_default d.org_name (codes "My Organization");
  billing_email = some (or_default d.billing_email []);
  currency = or_default d.currency (codes "EGP");
  webhook_url = some (or_default d.webhook_url []);
  webhook_secret = or_default d.webhook_secret (generate_webhook_secret env);
  brand_logo_url = some (or_default d.brand_logo_url []);
  brand_color = some (or_default d.brand_color default_color);
  brand_name = some (or_default d.brand_name []);
  created_at = env.now;
  updated_at = env.now;
}

-- `...(value !== undefined && { column: value })`
abbrev pub given : Option Text → Option Text → Option Text
given none old = old
given (some v) old = some v

-- The `set` of the conflict.
abbrev pub set_row : ConsoleEnv → SettingsUpdate → SettingsRow → SettingsRow
set_row env d r = record r {
  org_name = or_default d.org_name r.org_name;
  billing_email = given d.billing_email r.billing_email;
  currency = or_default d.currency r.currency;
  webhook_url = given d.webhook_url r.webhook_url;
  webhook_secret = or_default d.webhook_secret r.webhook_secret;
  brand_logo_url = given d.brand_logo_url r.brand_logo_url;
  brand_color = given d.brand_color r.brand_color;
  brand_name = given d.brand_name r.brand_name;
  updated_at = env.now;
}

-- `updateMerchantSettings`
unfoldable pub update_merchant_settings :
    ConsoleEnv → Text → SettingsUpdate → Console → Result MerchantSettings
unfolding get_merchant_settings upsert
update_merchant_settings env user d c =
    if env.db_fails
    then thrown c
    else get_merchant_settings env user none none (record c {
      settings = upsert (has_user user) (set_row env d) (new_row env user d) c.settings;
    })
