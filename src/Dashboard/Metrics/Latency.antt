-- ===== src/Dashboard/Metrics/Latency.antt =====
-- The latencies on the dashboard of apps/web/lib/dashboard-telemetry-service.ts.
use openwrapper.Prelude.{
  ℕ, ◌-◌, ◌≤◌, ◌<◌, ◌≡◌, ◌&&◌, some, List, [], ◌∷◌, ltb, keep, All, arith, Bool-cases, inl, inr,
}
use openwrapper.Js.Text.{Text}
use openwrapper.Store.{Mode, World, ApiRequestRow, ApiKeyRow}
use openwrapper.Dashboard.Metrics.{
  day_ms, latency_of, is_request_since, map, percentile_of, routing_samples, metrics_of,
}
use openwrapper.Dashboard.Percentile.{percentile}
use openwrapper.Dashboard.Percentile.Rank.{percentile_mono, All-percentile}

abbrev InRange : ℕ → Type 0
InRange n = (0 < n) × (n < 2_000)

keep-InRange : (xs : List ℕ) → All InRange (keep (λ n. ltb 0 n && ltb n 2_000) xs)
unfolding keep
keep-InRange [] = tt
keep-InRange (x ∷ xs) = elim (Bool-cases (ltb 0 x && ltb x 2_000)) [
  | inl good ↦ rw good (ground arith, keep-InRange xs)
  | inr bad ↦ rw bad (keep-InRange xs)
]

routing_samples-InRange : (rows : List ApiRequestRow) → All InRange (routing_samples rows)
unfolding routing_samples
routing_samples-InRange rows = keep-InRange (map latency_of rows)

percentiles_of :
    (xs : List ℕ) (p q : ℕ)
    → All InRange xs
    → percentile_of xs 50 ≡ some p
    → percentile_of xs 95 ≡ some q
    → (0 < p) × (p ≤ q) × (q < 2_000)
percentiles_of [] p q h e f = cc
percentiles_of (a ∷ xs) p q h e f =
    let p_is : percentile (a ∷ xs) 50 ≡ p = cc in
    let q_is : percentile (a ∷ xs) 95 ≡ q = cc in
    let (low, _) = All-percentile InRange a xs 50 (omega arith) (omega arith) h in
    let (_, high) = All-percentile InRange a xs 95 (omega arith) (omega arith) h in
    let mono = percentile_mono a xs 50 95 (omega arith) (omega arith) (omega arith) in
    rw (← p_is, ← q_is) (low, mono, high)

-- Where the latencies are shown, the median is at least 1 ms and at most the 95th percentile, and that
-- is below 2 s.
metrics_of-latencies :
    (any_200 : List ApiRequestRow → List ApiRequestRow) (weekday month_day : ℕ → Text) (user : Text)
    (m : Mode) (now : ℕ) (keys : List ApiKeyRow) (w : World) (p q : ℕ)
    → (metrics_of any_200 weekday month_day user m now keys w).routing_latency_p50 ≡ some p
    → (metrics_of any_200 weekday month_day user m now keys w).routing_latency_p95 ≡ some q
    → (0 < p) × (p ≤ q) × (q < 2_000)
unfolding metrics_of
metrics_of-latencies any_200 weekday month_day user m now keys w p q e f =
    let rows = any_200 (keep (is_request_since user m (now - day_ms)) w.api_requests) in
    percentiles_of (routing_samples rows) p q (routing_samples-InRange rows) e f
