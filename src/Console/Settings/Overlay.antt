-- ===== src/Console/Settings/Overlay.antt =====
-- That an update of the settings (apps/web/lib/merchant-settings-service.ts) is read back.
use openwrapper.Prelude.{
  ◌∙◌, ℕ, ◌≡◌, refl, Bool, true, false, not, Option, none, some, List, [], ◌∷◌, keep, arith,
  Bool-cases, inl, inr,
}
use openwrapper.Js.Text.{Text, ===_refl, or_default}
use openwrapper.Store.{upsert, first_match}
use openwrapper.Console.Session.{Console, ConsoleEnv, SettingsRow}
use openwrapper.Console.Settings.{
  SettingsUpdate, MerchantSettings, has_user, find_settings, settings_of, set_row, new_row, given,
  first_of, update_merchant_settings, get_merchant_settings,
}

-- What is shown, with the given values put in.
abbrev pub overlay : ℕ → SettingsUpdate → MerchantSettings → MerchantSettings
overlay now d s = record s {
  org_name = or_default d.org_name s.org_name;
  billing_email = or_default d.billing_email s.billing_email;
  currency = or_default d.currency s.currency;
  webhook_url = or_default d.webhook_url s.webhook_url;
  webhook_secret = or_default d.webhook_secret s.webhook_secret;
  brand_logo_url = or_default d.brand_logo_url s.brand_logo_url;
  brand_color = or_default d.brand_color s.brand_color;
  brand_name = or_default d.brand_name s.brand_name;
  updated_at = some now;
}

shown_given :
    (g old : Option Text) (d : Text) → or_default (given g old) d ≡ or_default g (or_default old d)
shown_given none old d = refl
shown_given (some v) old d = refl

first_given :
    (g old : Option Text) → first_of (given g old) none [] ≡ or_default g (first_of old none [])
first_given none old = refl
first_given (some v) old = refl

settings_of-set_row :
    (env : ConsoleEnv) (d : SettingsUpdate) (r : SettingsRow)
    → settings_of none none (set_row env d r) ≡ overlay env.now d (settings_of none none r)
settings_of-set_row env d r =
    rw
      (
        first_given d.billing_email r.billing_email,
        shown_given d.webhook_url r.webhook_url [],
        shown_given d.brand_logo_url r.brand_logo_url [],
        shown_given d.brand_color r.brand_color _,
        first_given d.brand_name r.brand_name,
      )
      refl

first_match-upsert :
    (p : SettingsRow → Bool) (f : SettingsRow → SettingsRow) (new : SettingsRow)
    (rows : List SettingsRow) (r : SettingsRow)
    → ((x : SettingsRow) → p (f x) ≡ p x)
    → first_match p rows ≡ some r
    → first_match p (upsert p f new rows) ≡ some (f r)
unfolding first_match upsert
first_match-upsert p f new [] r h e = cc
first_match-upsert p f new (x ∷ rows) r h e = elim (Bool-cases (p x)) [
  | inl yes_x ↦
      let same : x ≡ r = ground arith in
      let again : p (f x) ≡ true = h x ∙ yes_x in rw (yes_x, again, same) refl
  | inr no_x ↦ rw (no_x, no_x) (first_match-upsert p f new rows r h (ground arith))
]

keep-upsert :
    (p : SettingsRow → Bool) (f : SettingsRow → SettingsRow) (new : SettingsRow)
    (rows : List SettingsRow)
    → ((x : SettingsRow) → p (f x) ≡ p x)
    → p new ≡ true
    → keep (λ x. not (p x)) (upsert p f new rows) ≡ keep (λ x. not (p x)) rows
unfolding keep upsert
keep-upsert p f new [] h t = rw t refl
keep-upsert p f new (x ∷ rows) h t = elim (Bool-cases (p x)) [
  | inl yes_x ↦ let again : p (f x) ≡ true = h x ∙ yes_x in rw (yes_x, again) refl
  | inr no_x ↦ rw (no_x, no_x, keep-upsert p f new rows h t) refl
]

-- The settings of the other users are as they were.
abbrev pub OthersKept : Text → Console → Console → Type 0
OthersKept user c c' =
    keep (λ r. not (has_user user r)) c'.settings ≡ keep (λ r. not (has_user user r)) c.settings

-- An update of existing settings answers what was shown before with the given values put in and the time
-- of the update, the same is read back, and the settings of every other user stay as they were.
pub update_merchant_settings-overlay :
    (env : ConsoleEnv) (user : Text) (d : SettingsUpdate) (c : Console) (old : SettingsRow)
    → env.db_fails ≡ false
    → find_settings user c ≡ some old
    → (c' : Console) × (update_merchant_settings env user d c
        ≡ (some (overlay env.now d (settings_of none none old)), c'))
      × (get_merchant_settings env user none none c'
          ≡ (some (overlay env.now d (settings_of none none old)), c'))
      × OthersKept user c c'
unfolding update_merchant_settings get_merchant_settings
update_merchant_settings-overlay env user d c old up found =
    let rows = upsert (has_user user) (set_row env d) (new_row env user d) c.settings in
    let c' : Console = record c { settings = rows } in
    let now_found : first_match (has_user user) rows ≡ some (set_row env d old) =
      first_match-upsert (has_user user) (set_row env d) (new_row env user d) c.settings old
        (λ x. refl) found in
    (
      c',
      rw (up, now_found, settings_of-set_row env d old) refl,
      rw (up, now_found, settings_of-set_row env d old) refl,
      keep-upsert (has_user user) (set_row env d) (new_row env user d) c.settings (λ x. refl)
          (===_refl user),
    )
