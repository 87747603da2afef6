-- ===== src/Console/Settings/Routes.antt =====
-- apps/web/app/api/merchant/settings/route.ts and apps/web/app/actions/merchant-settings.ts. The tests of
-- e-mail addresses and URLs of zod are arguments.
use openwrapper.Prelude.{
  ℕ, Bool, false, ◌&&◌, ◌||◌, Option, none, some, List, [], ◌∷◌, leb, length, every, ◌==◌,
}
use openwrapper.Js.Text.{Text, codes, trim, member}
use openwrapper.Js.Json.{Json, str, obj, lookup}
use openwrapper.Console.Session.{SessionUser, Console, ConsoleEnv, Result, done, thrown}
use openwrapper.Console.Schema.{trimmed, between, one_of, optional, ◌>>=◌}
use openwrapper.Console.Settings.{
  MerchantSettings, SettingsUpdate, generate_webhook_secret, get_merchant_settings,
  update_merchant_settings,
}

pub data SettingsReply : Type 0 where
  refused : (status : ℕ) → (error : Text) → SettingsReply
  shown : MerchantSettings → SettingsReply
  saved : MerchantSettings → SettingsReply
  regenerated : (secret : Text) → MerchantSettings → SettingsReply

-- What a handler makes of the settings; an exception passes.
abbrev pub reply_with :
    (MerchantSettings → SettingsReply) → Result MerchantSettings → Result SettingsReply
reply_with f (some s, c) = (some (f s), c)
reply_with f (none, c) = (none, c)

-- `GET`
unfoldable pub get_settings : ConsoleEnv → Option SessionUser → Console → Result SettingsReply
unfolding get_merchant_settings
get_settings env none c = done (refused 401 (codes "Unauthorized")) c
get_settings env (some user) c =
    reply_with shown (get_merchant_settings env user.id (some user.name) (some user.email) c)

abbrev is_hex : ℕ → Bool
is_hex c = (leb b'0' c && leb c b'9') || (leb b'a' c && leb c b'f') || (leb b'A' c && leb c b'F')

-- `/^#([0-9a-fA-F]{3}|[0-9a-fA-F]{6})$/`
unfoldable pub is_color : Text → Bool
unfolding every
is_color [] = false
is_color (c ∷ s) = c == b'#' && (length s == 3 || length s == 6) && every is_hex s

-- `.or(z.literal(""))`
abbrev or_empty : (Json → Option Text) → Json → Option Text
or_empty p (str []) = some []
or_empty p v = p v

abbrev currencies : List Text
currencies = codes "EGP" ∷ codes "SAR" ∷ codes "AED" ∷ codes "USD" ∷ codes "EUR" ∷ []

module _ (is_email is_url : Text → Bool) where
  -- `settingsUpdateSchema`
  unfoldable pub settings_update_schema : Json → Option SettingsUpdate
  unfolding lookup trim is_color member
  settings_update_schema (obj fs) = do
    org ← optional (trimmed (between 2 100)) (lookup (codes "orgName") fs)
    email ← optional (or_empty (trimmed is_email)) (lookup (codes "billingEmail") fs)
    currency ← optional (one_of currencies) (lookup (codes "currency") fs)
    url ← optional (or_empty (trimmed is_url)) (lookup (codes "webhookUrl") fs)
    secret ← optional (trimmed (λ s. leb 16 (length s))) (lookup (codes "webhookSecret") fs)
    logo ← optional (trimmed (λ s. leb (length s) 500_000)) (lookup (codes "brandLogoUrl") fs)
    color ← optional (trimmed is_color) (lookup (codes "brandColor") fs)
    brand ← optional (trimmed (λ s. leb (length s) 100)) (lookup (codes "brandName") fs)
    some (record {
      org_name = org;
      billing_email = email;
      currency = currency;
      webhook_url = url;
      webhook_secret = secret;
      brand_logo_url = logo;
      brand_color = color;
      brand_name = brand;
    })
  settings_update_schema _ = none

  abbrev patch_parsed : ConsoleEnv → Text → Option SettingsUpdate → Console → Result SettingsReply
  patch_parsed env user none c = done (refused 400 (codes "Invalid settings data")) c
  patch_parsed env user (some d) c = reply_with saved (update_merchant_settings env user d c)

  -- `PATCH`; the body is none where `request.json()` throws.
  unfoldable pub patch_settings :
      ConsoleEnv → Option SessionUser → Option Json → Console → Result SettingsReply
  unfolding update_merchant_settings settings_update_schema
  patch_settings env none body c = done (refused 401 (codes "Unauthorized")) c
  patch_settings env (some user) none c = done (refused 400 (codes "Invalid JSON payload")) c
  patch_settings env (some user) (some body) c =
      patch_parsed env user.id (settings_update_schema body) c

-- `saveMerchantSettingsAction`: the data of the caller as it is.
unfoldable pub save_merchant_settings :
    ConsoleEnv → Option SessionUser → SettingsUpdate → Console → Result SettingsReply
unfolding update_merchant_settings
save_merchant_settings env none d c = thrown c
save_merchant_settings env (some user) d c =
    reply_with saved (update_merchant_settings env user.id d c)

abbrev secret_only : Text → SettingsUpdate
secret_only secret = record {
  org_name = none;
  billing_email = none;
  currency = none;
  webhook_url = none;
  webhook_secret = some secret;
  brand_logo_url = none;
  brand_color = none;
  brand_name = none;
}

-- `regenerateWebhookSecretAction`
unfoldable pub regenerate_webhook_secret :
    ConsoleEnv → Option SessionUser → Console → Result SettingsReply
unfolding update_merchant_settings
regenerate_webhook_secret env none c = thrown c
regenerate_webhook_secret env (some user) c =
    reply_with (regenerated (generate_webhook_secret env))
      (update_merchant_settings env user.id (secret_only (generate_webhook_secret env)) c)
