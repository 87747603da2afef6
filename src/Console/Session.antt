-- ===== src/Console/Session.antt =====
-- The state that the console's handlers share, and what they need of their surroundings. A handler gives
-- none where it throws; the state comes back in each case. Revalidation of Next's page cache is left out.
use openwrapper.Prelude.{ℕ, Bool, Option, none, some, List}
use openwrapper.Js.Text.{Text}
use openwrapper.Store.{World}
use openwrapper.Dashboard.Cache.{Cache}
use openwrapper.Dashboard.Metrics.{DashboardData}

-- `session.user` of `auth.api.getSession`
pub record SessionUser : Type 0 where
  pub id : Text
  pub name : Text
  pub email : Text

-- A row of `merchant_settings`.
pub record SettingsRow : Type 0 where
  pub user_id : Text
  pub org_name : Text
  pub billing_email : Option Text
  pub currency : Text
  pub webhook_url : Option Text
  pub webhook_secret : Text
  pub brand_logo_url : Option Text
  pub brand_color : Option Text
  pub brand_name : Option Text
  pub created_at : ℕ
  pub updated_at : ℕ

pub record Console : Type 0 where
  pub world : World
  pub cache : Cache DashboardData
  pub settings : List SettingsRow

-- SHA-256 in hex, random secrets, the serial number that a new row gets, the clock, and whether the
-- database refuses.
pub record ConsoleEnv : Type 0 where
  pub sha256 : Text → Text
  pub random_secret : Text
  pub serial : ℕ
  pub now : ℕ
  pub db_fails : Bool

abbrev pub Result : Type 0 → Type 0
Result A = Option A × Console

abbrev pub done : {A : Type 0} → A → Console → Result A
done a c = (some a, c)

abbrev pub thrown : {A : Type 0} → Console → Result A
thrown c = (none, c)
