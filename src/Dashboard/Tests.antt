-- ===== src/Dashboard/Tests.antt =====
-- The dashboard and its cache on concrete inputs.
use openwrapper.Prelude.{
  ℕ, ◌+◌, ◌≤◌, ◌<◌, ◌≡◌, refl, none, [], ◌∷◌, map, drop, arith, length, leb, ltb,
}
use openwrapper.Js.Text.{Text, codes, ◌===◌}
use openwrapper.Js.Decimal.{show}
use openwrapper.Store.{Mode, live, World, ApiRequestRow}
use openwrapper.Dashboard.Cache.{read_cache, write_cache, lookup}
use openwrapper.Dashboard.Cache.Laws.{IsDistinct}
use openwrapper.Dashboard.Cache.Reach.{Step, Clocked, Reach, empty, Reach-bounded, Reach-read_cache}
use openwrapper.Dashboard.Percentile.{percentile, rank}
use openwrapper.Dashboard.Percentile.Rank.{percentile_counts}
use openwrapper.Dashboard.Groups.{count_if}
use openwrapper.Dashboard.Metrics.{fetch_dashboard_data}
use openwrapper.Dashboard.Metrics.Own.{only, fetch_dashboard_data-only}
use openwrapper.Dashboard.Metrics.Charts.{countdown, exact_point, fetch_dashboard_data-charts}

-- The data is the time at which it was fetched.
abbrev StampedAt : Text → Mode → ℕ → ℕ → Type 0
StampedAt user m at d = d ≡ at

abbrev warm : Clocked ℕ
warm = record { now = 10; cache = write_cache (codes "u1") live 10 10 [] }

warm-Reach : Reach StampedAt (empty 0) warm
warm-Reach =
    Reach.next (Reach.next Reach.here (Step.passes (empty 0) 10))
      (Step.writes (record { now = 10; cache = [] }) (codes "u1") live 10 refl)

Reach-bounded_example : (length warm.cache ≤ 500) × IsDistinct warm.cache
Reach-bounded_example = Reach-bounded StampedAt 0 warm warm-Reach

Reach-read_cache_example : (at : ℕ) × (10 ≡ at) × (10 < at + 30_000)
unfolding read_cache write_cache lookup ◌===◌
Reach-read_cache_example = Reach-read_cache StampedAt 0 warm (codes "u1") live 10 warm-Reach refl

percentile_counts_example :
    (rank 3 50 ≤ count_if (λ x. leb x (percentile (30 ∷ 10 ∷ 20 ∷ []) 50)) (30 ∷ 10 ∷ 20 ∷ []))
    × (count_if (λ x. ltb x (percentile (30 ∷ 10 ∷ 20 ∷ []) 50)) (30 ∷ 10 ∷ 20 ∷ []) < rank 3 50)
percentile_counts_example = percentile_counts 30 (10 ∷ 20 ∷ []) 50 (omega arith) (omega arith)

percentile_runs : percentile (30 ∷ 10 ∷ 20 ∷ []) 50 ≡ 20
unfolding percentile
percentile_runs = refl

abbrev request_at : Text → ℕ → ApiRequestRow
request_at user time = record {
  user_id = user;
  api_key_id = none;
  method = codes "GET";
  endpoint = codes "/api/v1/payments";
  status_code = 200;
  latency_ms = 12;
  routing_latency_ms = none;
  environment = codes "live";
  created_at = time;
}

-- Two days after the start of the count, with requests of two users.
abbrev busy : World
busy = record {
  payments = [];
  api_keys = [];
  api_requests = request_at (codes "u1") 172_800_000 ∷ request_at (codes "u2") 172_800_001 ∷ [];
  webhook_events = [];
  scheduled = [];
}

fetch_dashboard_data-only_example :
    fetch_dashboard_data
      (λ rows. rows)
      show
      show
      (codes "u1")
      live
      172_900_000
      (only (codes "u1") busy)
    ≡ fetch_dashboard_data (λ rows. rows) show show (codes "u1") live 172_900_000 busy
fetch_dashboard_data-only_example =
    fetch_dashboard_data-only (codes "u1") live (λ rows. rows) show show 172_900_000 busy

fetch_dashboard_data-charts_example :
    ((fetch_dashboard_data (λ rows. rows) show show (codes "u1") live 172_900_000 busy).weekly_chart
      ≡ map (exact_point (codes "u1") live 172_900_000 show busy) (countdown 7))
    × (drop 1
          (fetch_dashboard_data
            (λ rows. rows)
            show
            show
            (codes "u1")
            live
            172_900_000
            busy).monthly_chart
        ≡ map (exact_point (codes "u1") live 172_900_000 show busy) (countdown 29))
fetch_dashboard_data-charts_example =
    fetch_dashboard_data-charts (codes "u1") live 172_900_000 (λ rows. rows) show show busy
