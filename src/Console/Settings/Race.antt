-- ===== src/Console/Settings/Race.antt =====
-- Two first requests for the settings at once (apps/web/lib/merchant-settings-service.ts).
use openwrapper.Prelude.{
  sym, ◌≡◌, ◌≢◌, refl, Bool, true, Option, none, some, List, [], ◌∷◌, any, arith,
}
use openwrapper.Js.Text.{Text}
use openwrapper.Store.{insert_or_ignore, first_match}
use openwrapper.Console.Session.{Console, ConsoleEnv, SettingsRow}
use openwrapper.Console.Settings.{
  initial_row, without_times, MerchantSettings, has_user, find_settings, settings_of,
  create_settings, generate_webhook_secret,
}

any-first_match :
    (p : SettingsRow → Bool) (rows : List SettingsRow) (r : SettingsRow)
    → first_match p rows ≡ some r
    → any p rows ≡ true
unfolding any first_match
any-first_match p [] r h = cc
any-first_match p (x ∷ rows) r h = ground (arith, any-first_match p rows r)

-- When another request has stored the user's settings since the lookup found none, the answer is not what
-- is stored: nothing is written, and the secret that is shown is a new one, while the secret that signs
-- the user's webhooks is that of the other request.
pub create_settings-raced :
    (env : ConsoleEnv) (user : Text) (name email : Option Text) (c : Console) (row : SettingsRow)
    → find_settings user c ≡ some row
    → row.webhook_secret ≢ generate_webhook_secret env
    → (s : MerchantSettings) × (create_settings env user name email c ≡ (some s, c))
      × (s.webhook_secret ≡ generate_webhook_secret env)
      × (s.webhook_secret ≢ row.webhook_secret)
unfolding create_settings insert_or_ignore
create_settings-raced env user name email c row found ne = (
  without_times (settings_of none none (initial_row env user name email)),
  rw (any-first_match (has_user user) c.settings row found) refl,
  refl,
  λ e. ne (sym e),
)
