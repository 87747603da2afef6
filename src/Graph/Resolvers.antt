-- ===== src/Graph/Resolvers.antt =====
-- `rootResolver` of apps/web/lib/graphql/resolvers.ts, on the rows of the database; a resolved payment is
-- its row. `Number` and `toISOString` of the columns change only how a value is written.
pub mod Own
use openwrapper.Prelude.{
  ◌||◌, ℕ, Bool, true, false, ◌&&◌, Option, none, some, List, [], ◌∷◌, leb, if◌then◌else◌, take,
  drop, keep,
}
use openwrapper.Js.Text.{Text, codes, ◌===◌, present, or_text, or_default}
use openwrapper.Store.{World, Sql, PaymentRow, ApiKeyRow, ApiRequestRow, column_is, Mode, test}
use openwrapper.Store.Newest.{newest_first}
use openwrapper.Dashboard.Metrics.{DashboardData, DashboardMetrics, ChartDataPoint}
use openwrapper.Sdk.Money.{ℤ, pos, negsuc}
use Prim.Native.Nat.{min, max}

pub record GraphContext : Type 0 where
  pub user_id : Option Text
  pub user_email : Option Text
  pub user_name : Option Text

abbrev pub no_context : GraphContext
no_context = record { user_id = none; user_email = none; user_name = none }

-- The arguments of `payments`; none is left out.
pub record PaymentsArgs : Type 0 where
  pub status : Option Text
  pub provider : Option Text
  pub limit : Option ℤ
  pub offset : Option ℤ

-- `Math.min(Math.max(1, limit), 100)`
abbrev pub safe_limit : ℤ → ℕ
safe_limit (pos n) = min (max 1 n) 100
safe_limit (negsuc n) = 1

-- `Math.max(0, offset)`
abbrev pub safe_offset : ℤ → ℕ
safe_offset (pos n) = n
safe_offset (negsuc n) = 0

-- `if (context.userId) conditions.push(eq(payments.userId, context.userId))`
abbrev pub owned_if_known : Option Text → PaymentRow → Bool
owned_if_known none p = true
owned_if_known (some []) p = true
owned_if_known (some (c ∷ user)) p = column_is p.user_id (c ∷ user)

abbrev pub equals_if_given : Option Text → Text → Bool
equals_if_given none value = true
equals_if_given (some []) value = true
equals_if_given (some (c ∷ s)) value = value === c ∷ s

abbrev pub is_wanted : GraphContext → PaymentsArgs → PaymentRow → Bool
is_wanted context args p =
    owned_if_known context.user_id p
    && equals_if_given args.status p.status
    && equals_if_given args.provider p.provider

abbrev pub page : {Row : Type 0} → ℕ → ℕ → List Row → List Row
page limit offset rows = take limit (drop offset rows)

abbrev pub default_limit : ℤ
default_limit = pos 50

-- `payments`, of the root and of the viewer.
unfoldable pub payments_resolver : PaymentsArgs → GraphContext → World → List PaymentRow
unfolding newest_first keep
payments_resolver args context w =
    page (safe_limit (or_default args.limit default_limit))
      (safe_offset (or_default args.offset (pos 0)))
      (newest_first (λ (p : PaymentRow). p.created_at) (keep (is_wanted context args) w.payments))

-- `payment`, of the root and of the viewer.
unfoldable pub payment_resolver : Sql → Text → GraphContext → World → Option PaymentRow
payment_resolver sql id context w =
    sql.select_one (λ (p : PaymentRow). p.id === id && owned_if_known context.user_id p) w.payments

-- `viewer`
abbrev pub viewer_resolver : GraphContext → Option GraphContext
viewer_resolver context = if present context.user_id then some context else none

-- `context.userId || "anonymous"`
abbrev pub effective_user : GraphContext → Text
effective_user context = or_text context.user_id (codes "anonymous")

-- `metrics` and `timeline`, over `getDashboardData` with its default environment.
module _ (dashboard : Text → Mode → DashboardData) where
  abbrev pub metrics_resolver : GraphContext → DashboardMetrics
  metrics_resolver context = (dashboard (effective_user context) test).metrics

  abbrev days_above_week : Option ℤ → Bool
  days_above_week none = false
  days_above_week (some (negsuc n)) = false
  days_above_week (some (pos n)) = leb 8 n

  abbrev pub timeline_resolver : Option ℤ → GraphContext → List ChartDataPoint
  timeline_resolver days context =
      let data_of_user = dashboard (effective_user context) test in
      if days_above_week days then data_of_user.monthly_chart else data_of_user.weekly_chart

-- `MerchantViewer.apiRequests` and `MerchantViewer.apiKeys`, of the viewer's user.
unfoldable pub api_requests_resolver : Option ℤ → Option ℤ → Text → World → List ApiRequestRow
unfolding newest_first keep
api_requests_resolver limit offset user w =
    page (safe_limit (or_default limit (pos 20))) (safe_offset (or_default offset (pos 0))) (
      newest_first (λ (r : ApiRequestRow). r.created_at)
        (keep (λ (r : ApiRequestRow). r.user_id === user) w.api_requests))

unfoldable pub api_keys_resolver : Text → World → List ApiKeyRow
unfolding newest_first keep
api_keys_resolver user w =
    newest_first (λ (k : ApiKeyRow). k.created_at)
      (keep (λ (k : ApiKeyRow). k.user_id === user) w.api_keys)

-- `health`
unfoldable pub gateway_grpc : (Text → Option Text) → Text
gateway_grpc vars =
    if present (vars (codes "OPENWRAPPER_GATEWAY_GRPC_ADDR"))
      || present (vars (codes "GATEWAY_GRPC_URL"))
    then codes "configured"
    else codes "fallback_to_http"
