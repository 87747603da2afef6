-- ===== src/Dashboard/Metrics.antt =====
-- `fetchDashboardDataUncached` of apps/web/lib/dashboard-telemetry-service.ts. A date is the number of its
-- UTC day since 1970, on which `to_char` and `toISOString` agree; the labels of days are arguments. A
-- rate `(a / b) * 100` is kept as the pair of `a` and `b`. Rows of the same time come in any order.
pub mod Own
pub mod Charts
pub mod Latency
use openwrapper.Prelude.{
  ◌==◌, ℕ, zero, suc, ◌+◌, ◌-◌, ◌*◌, ◌/◌, Bool, true, false, ◌&&◌, ◌||◌, Option, none, some, List,
  [], ◌∷◌, map, leb, ltb, if◌then◌else◌, length, take, keep,
}
use openwrapper.Access.Authenticator.{is_null}
use openwrapper.Js.Text.{Text, codes, ◌===◌, or_default, truthy}
use openwrapper.Store.{
  column_is, Mode, live, test, mode_text, ApiKeyRow, ApiRequestRow, PaymentRow, World,
}
use openwrapper.Store.Newest.{select_newest, newest_first}
use openwrapper.Dashboard.Groups.{count_if, sum_of, get_group, group_by}
use openwrapper.Dashboard.Percentile.{percentile}

pub record ChartDataPoint : Type 0 where
  pub day : Text
  pub requests : ℕ
  pub errors : ℕ
  pub successes : ℕ
  pub volume : ℕ
  pub settled_volume : ℕ

pub record ProviderMixPoint : Type 0 where
  pub provider : Text
  pub count : ℕ
  pub settled_count : ℕ
  pub settled_volume_minor : ℕ
  pub settlement_rate : Option (ℕ × ℕ)

pub record DashboardMetrics : Type 0 where
  pub api_success_rate : Option (ℕ × ℕ)
  pub payment_settlement_rate : Option (ℕ × ℕ)
  pub settled_volume_minor : ℕ
  pub initiated_volume_minor : ℕ
  pub total_payments : ℕ
  pub pending_payments : ℕ
  pub routing_latency_p50 : Option ℕ
  pub routing_latency_p95 : Option ℕ
  pub active_keys : ℕ
  pub provider_mix : List ProviderMixPoint

pub record DashboardData : Type 0 where
  pub keys : List ApiKeyRow
  pub requests : List ApiRequestRow
  pub payments : List PaymentRow
  pub weekly_chart : List ChartDataPoint
  pub monthly_chart : List ChartDataPoint
  pub metrics : DashboardMetrics

pub record RequestCounts : Type 0 where
  pub requests : ℕ
  pub errors : ℕ

pub record VolumeSums : Type 0 where
  pub initiated : ℕ
  pub settled : ℕ

pub record ProviderStats : Type 0 where
  pub count : ℕ
  pub settled_count : ℕ
  pub settled_volume : ℕ

abbrev pub day_ms : ℕ
day_ms = 86_400_000

abbrev pub day_of : ℕ → ℕ
day_of t = t / day_ms

abbrev pub is_success : PaymentRow → Bool
is_success p = p.status === codes "succeeded"

abbrev is_some : Option Text → Bool
is_some none = false
is_some (some _) = true

abbrev is_pending : PaymentRow → Bool
is_pending p =
    p.status === codes "pending"
    || (p.status === codes "unknown"
        && (is_some p.next_action_type || is_some p.next_action_payload))

abbrev is_error : ApiRequestRow → Bool
is_error r = leb 400 r.status_code

abbrev is_ok : ApiRequestRow → Bool
is_ok r = leb 200 r.status_code && ltb r.status_code 300

-- The filters of the queries.
module _ (user : Text) (m : Mode) where
  abbrev pub is_active_key : ApiKeyRow → Bool
  is_active_key k = k.user_id === user && is_null k.revoked_at && k.environment === mode_text m

  abbrev pub is_request : ApiRequestRow → Bool
  is_request r = r.user_id === user && r.environment === mode_text m

  abbrev pub is_request_since : ℕ → ApiRequestRow → Bool
  is_request_since since r =
      r.user_id === user && r.environment === mode_text m && leb since r.created_at

  abbrev pub is_payment : PaymentRow → Bool
  is_payment p = column_is p.user_id user && p.environment === mode_text m

  abbrev pub is_payment_since : ℕ → PaymentRow → Bool
  is_payment_since since p =
      column_is p.user_id user && p.environment === mode_text m && leb since p.created_at

abbrev settled_volume_of : List PaymentRow → ℕ
settled_volume_of rows = sum_of (λ (p : PaymentRow). p.amount_minor_units) (keep is_success rows)

abbrev pub request_counts : List ApiRequestRow → RequestCounts
request_counts rows = record { requests = length rows; errors = count_if is_error rows }

abbrev pub volume_sums : List PaymentRow → VolumeSums
volume_sums rows = record {
  initiated = sum_of (λ (p : PaymentRow). p.amount_minor_units) rows;
  settled = settled_volume_of rows;
}

abbrev provider_stats : List PaymentRow → ProviderStats
provider_stats rows = record {
  count = length rows;
  settled_count = count_if is_success rows;
  settled_volume = settled_volume_of rows;
}

abbrev pub rate_of : ℕ → ℕ → Option (ℕ × ℕ)
rate_of part whole = if ltb 0 whole then some (part, whole) else none

abbrev pub no_requests : RequestCounts
no_requests = record { requests = 0; errors = 0 }

abbrev pub no_volume : VolumeSums
no_volume = record { initiated = 0; settled = 0 }

abbrev no_stats : ProviderStats
no_stats = record { count = 0; settled_count = 0; settled_volume = 0 }

abbrev pub day_eq : ℕ → ℕ → Bool
day_eq a b = a == b

abbrev pub point_of : Text → RequestCounts → VolumeSums → ChartDataPoint
point_of label req vol = record {
  day = label;
  requests = req.requests;
  errors = req.errors;
  successes = req.requests - req.errors;
  volume = vol.initiated;
  settled_volume = vol.settled;
}

-- The pass of the loop with `i`.
abbrev pub day_point :
    ℕ → (ℕ → Text) → List (ℕ × RequestCounts) → List (ℕ × VolumeSums) → ℕ → ChartDataPoint
day_point now label requests volumes i =
    let d = now - i * day_ms in
    point_of (label d) (or_default (get_group day_eq (day_of d) requests) no_requests)
      (or_default (get_group day_eq (day_of d) volumes) no_volume)

-- `buildDailyTimeline`, from the oldest day to today.
unfoldable pub build_daily_timeline :
    ℕ → ℕ → (ℕ → Text) → List (ℕ × RequestCounts) → List (ℕ × VolumeSums) → List ChartDataPoint
unfolding get_group
build_daily_timeline now zero label requests volumes = []
build_daily_timeline now (suc i) label requests volumes =
    day_point now label requests volumes i ∷ build_daily_timeline now i label requests volumes

abbrev mix_point : Text → ProviderStats → ProviderMixPoint
mix_point provider p = record {
  provider = provider;
  count = p.count;
  settled_count = p.settled_count;
  settled_volume_minor = p.settled_volume;
  settlement_rate = rate_of p.settled_count p.count;
}

abbrev pub provider_names : List Text
provider_names = codes "paymob" ∷ codes "fawry" ∷ codes "stripe" ∷ codes "mock" ∷ []

unfoldable pub provider_mix : List (Text × ProviderStats) → List ProviderMixPoint
unfolding keep get_group
provider_mix stats =
    keep (λ (p : ProviderMixPoint). ltb 0 p.count)
      (map (λ name. mix_point name (or_default (get_group ◌===◌ name stats) no_stats))
        provider_names)

-- `Number(r.routing ?? r.latency)`, and the filter on it.
abbrev pub latency_of : ApiRequestRow → ℕ
latency_of r = or_default r.routing_latency_ms r.latency_ms

unfoldable pub routing_samples : List ApiRequestRow → List ℕ
unfolding keep
routing_samples rows = keep (λ n. ltb 0 n && ltb n 2_000) (map latency_of rows)

abbrev pub percentile_of : List ℕ → ℕ → Option ℕ
percentile_of [] p = none
percentile_of (a ∷ xs) p = some (percentile (a ∷ xs) p)

abbrev with_environment : ApiKeyRow → ApiKeyRow
with_environment k = record k {
  environment = if truthy k.environment then k.environment else codes "live";
}

-- `any_200` is what a query with `LIMIT 200` and no order gives of the rows that match.
module _ (any_200 : List ApiRequestRow → List ApiRequestRow) (weekday month_day : ℕ → Text)
    (user : Text) (m : Mode) (now : ℕ) where
  unfoldable pub metrics_of : List ApiKeyRow → World → DashboardMetrics
  unfolding keep sum_of group_by provider_mix routing_samples
  metrics_of keys w =
      let requests_24h = keep (is_request_since user m (now - day_ms)) w.api_requests in
      let own = keep (is_payment user m) w.payments in
      let samples = routing_samples (any_200 requests_24h) in
      record {
        api_success_rate = rate_of (count_if is_ok requests_24h) (length requests_24h);
        payment_settlement_rate = rate_of (count_if is_success own) (length own);
        settled_volume_minor = settled_volume_of own;
        initiated_volume_minor = sum_of (λ (p : PaymentRow). p.amount_minor_units) own;
        total_payments = length own;
        pending_payments = count_if is_pending own;
        routing_latency_p50 = percentile_of samples 50;
        routing_latency_p95 = percentile_of samples 95;
        active_keys = length keys;
        provider_mix =
            provider_mix (group_by ◌===◌ (λ (p : PaymentRow). p.provider) provider_stats own);
      }

  abbrev pub daily_requests : World → List (ℕ × RequestCounts)
  daily_requests w =
      group_by day_eq (λ (r : ApiRequestRow). day_of r.created_at) request_counts
        (keep (is_request_since user m (now - 29 * day_ms)) w.api_requests)

  abbrev pub daily_volumes : World → List (ℕ × VolumeSums)
  daily_volumes w =
      group_by day_eq (λ (p : PaymentRow). day_of p.created_at) volume_sums
        (keep (is_payment_since user m (now - 29 * day_ms)) w.payments)

  -- The `try` of `fetchDashboardDataUncached`.
  unfoldable pub fetch_dashboard_data : World → DashboardData
  unfolding metrics_of build_daily_timeline
  fetch_dashboard_data w =
      let keys =
        newest_first (λ (k : ApiKeyRow). k.created_at) (keep (is_active_key user m) w.api_keys) in
      record {
        keys = map with_environment keys;
        requests =
            select_newest (λ (r : ApiRequestRow). r.created_at) (is_request user m) 10
              w.api_requests;
        payments =
            select_newest (λ (p : PaymentRow). p.created_at) (is_payment user m) 10 w.payments;
        weekly_chart = build_daily_timeline now 7 weekday (daily_requests w) (daily_volumes w);
        monthly_chart = build_daily_timeline now 30 month_day (daily_requests w) (daily_volumes w);
        metrics = metrics_of keys w;
      }

abbrev empty_day : Text → ChartDataPoint
empty_day label = point_of label no_requests no_volume

abbrev empty_days : List ChartDataPoint
empty_days = map empty_day (
    codes "Mon"
    ∷ codes "Tue"
    ∷ codes "Wed"
    ∷ codes "Thu"
    ∷ codes "Fri"
    ∷ codes "Sat"
    ∷ codes "Sun"
    ∷ [])

-- What the `catch` of `fetchDashboardDataUncached` gives.
unfoldable pub empty_dashboard_data : DashboardData
empty_dashboard_data = record {
  keys = [];
  requests = [];
  payments = [];
  weekly_chart = empty_days;
  monthly_chart = empty_days;
  metrics = record {
    api_success_rate = none;
    payment_settlement_rate = none;
    settled_volume_minor = 0;
    initiated_volume_minor = 0;
    total_payments = 0;
    pending_payments = 0;
    routing_latency_p50 = none;
    routing_latency_p95 = none;
    active_keys = 0;
    provider_mix = [];
  };
}
