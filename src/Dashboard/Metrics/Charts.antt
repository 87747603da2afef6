-- ===== src/Dashboard/Metrics/Charts.antt =====
-- The charts of apps/web/lib/dashboard-telemetry-service.ts.
use openwrapper.Prelude.{
  le→leb, ℕ, zero, suc, ◌-◌, ◌*◌, ◌≤◌, ◌≡◌, refl, Bool, true, false, ◌&&◌, List, [], ◌∷◌, map, keep,
  drop, arith, ap₂, any, Bool-cases, inl, inr, ◌==◌, ==_iff, leb,
}
use openwrapper.Js.Text.{Text, or_default}
use openwrapper.Store.{Mode, World, ApiRequestRow, PaymentRow}
use openwrapper.Dashboard.Groups.{sum_of, get_group, group_by, get_group-group_by}
use openwrapper.Dashboard.Metrics.{
  ChartDataPoint, point_of, request_counts, volume_sums, day_ms, day_of, day_eq, day_point,
  daily_requests, daily_volumes, is_request, is_request_since, is_payment, is_payment_since,
  build_daily_timeline, fetch_dashboard_data,
}

-- n - 1, …, 1, 0
abbrev pub countdown : ℕ → List ℕ
countdown zero = []
countdown (suc n) = n ∷ countdown n

keep_both :
    {Row : Type 0} (p q s : Row → Bool) (rows : List Row)
    → ((r : Row) → (p r && q r) ≡ s r)
    → keep p (keep q rows) ≡ keep s rows
unfolding keep
keep_both p q s [] h = refl
keep_both p q s (r ∷ rows) h = ground (arith, h r, keep_both p q s rows h)

keep_missing :
    {Row : Type 0} (key : Row → ℕ) (k : ℕ) (rows : List Row)
    → any (λ j. day_eq j k) (map key rows) ≡ false
    → keep (λ r. day_eq (key r) k) rows ≡ []
unfolding keep any
keep_missing key k [] h = refl
keep_missing key k (r ∷ rows) h = ground (arith, keep_missing key k rows)

-- The group of a day, or the aggregate of no rows.
day_group :
    {Row V : Type 0} (key : Row → ℕ) (agg : List Row → V) (k : ℕ) (rows : List Row)
    → or_default (get_group day_eq k (group_by day_eq key agg rows)) (agg [])
      ≡ agg (keep (λ r. day_eq (key r) k) rows)
day_group key agg k rows =
    rw (get_group-group_by day_eq ==_iff key agg k rows)
      (elim (Bool-cases (any (λ j. day_eq j k) (map key rows))) [
        | inl found ↦ rw found refl
        | inr missing ↦ rw (missing, keep_missing key k rows missing) refl
      ])

-- A row of one of the last days is not older than the query's 29 days.
since_day : (now i t : ℕ) → i ≤ 28 → day_of t ≡ day_of (now - i * day_ms) → now - 29 * day_ms ≤ t
since_day now i t h e = omega arith

module _ (user : Text) (m : Mode) (now : ℕ) where
  -- The rows of the user on the day that is `i` days before now.
  abbrev pub requests_on : ℕ → World → List ApiRequestRow
  requests_on i w =
      keep
        (λ (r : ApiRequestRow).
          day_of r.created_at == day_of (now - i * day_ms) && is_request user m r)
        w.api_requests

  abbrev pub payments_on : ℕ → World → List PaymentRow
  payments_on i w =
      keep
        (λ (p : PaymentRow).
          day_of p.created_at == day_of (now - i * day_ms) && is_payment user m p)
        w.payments

  -- What the chart is to show for that day.
  abbrev pub exact_point : (ℕ → Text) → World → ℕ → ChartDataPoint
  exact_point label w i =
      point_of (label (now - i * day_ms)) (request_counts (requests_on i w))
        (volume_sums (payments_on i w))

  requests-exact :
      (w : World) (i : ℕ)
      → i ≤ 28
      → keep
          (λ (r : ApiRequestRow). day_eq (day_of r.created_at) (day_of (now - i * day_ms)))
          (keep (is_request_since user m (now - 29 * day_ms)) w.api_requests)
        ≡ requests_on i w
  requests-exact w i h = keep_both _ _ _ w.api_requests (λ r.
      elim (Bool-cases (day_of r.created_at == day_of (now - i * day_ms))) [
        | inl same ↦
            let recent : leb (now - 29 * day_ms) r.created_at ≡ true =
              le→leb _ _ (since_day now i r.created_at h ((==_iff _ _).0 same)) in
            rw (same, recent) (ground arith)
        | inr other ↦ rw other refl
      ])

  payments-exact :
      (w : World) (i : ℕ)
      → i ≤ 28
      → keep
          (λ (p : PaymentRow). day_eq (day_of p.created_at) (day_of (now - i * day_ms)))
          (keep (is_payment_since user m (now - 29 * day_ms)) w.payments)
        ≡ payments_on i w
  payments-exact w i h = keep_both _ _ _ w.payments (λ p.
      elim (Bool-cases (day_of p.created_at == day_of (now - i * day_ms))) [
        | inl same ↦
            let recent : leb (now - 29 * day_ms) p.created_at ≡ true =
              le→leb _ _ (since_day now i p.created_at h ((==_iff _ _).0 same)) in
            rw (same, recent) (ground arith)
        | inr other ↦ rw other refl
      ])

  module _ (any_200 : List ApiRequestRow → List ApiRequestRow) (weekday month_day label : ℕ → Text)
      (w : World) where
    day_point-exact :
        (i : ℕ)
        → i ≤ 28
        → day_point now label
            (daily_requests any_200 weekday month_day user m now w)
            (daily_volumes any_200 weekday month_day user m now w)
            i
          ≡ exact_point label w i
    unfolding get_group keep sum_of
    day_point-exact i h =
        rw
          (
            day_group (λ (r : ApiRequestRow). day_of r.created_at) request_counts
                (day_of (now - i * day_ms))
                (keep (is_request_since user m (now - 29 * day_ms)) w.api_requests),
            day_group (λ (p : PaymentRow). day_of p.created_at) volume_sums
                (day_of (now - i * day_ms))
                (keep (is_payment_since user m (now - 29 * day_ms)) w.payments),
            requests-exact w i h,
            payments-exact w i h,
          )
          refl

    timeline-exact :
        (n : ℕ)
        → n ≤ 29
        → build_daily_timeline now n label
            (daily_requests any_200 weekday month_day user m now w)
            (daily_volumes any_200 weekday month_day user m now w)
          ≡ map (exact_point label w) (countdown n)
    unfolding build_daily_timeline
    timeline-exact zero h = refl
    timeline-exact (suc n) h =
        ap₂ ◌∷◌ (day_point-exact n (omega arith)) (timeline-exact n (omega arith))

  -- Each point of the weekly chart shows the user's requests and payments of its whole UTC day: the last 7
  -- days, the oldest first. So does the monthly chart behind its first point.
  pub fetch_dashboard_data-charts :
      (any_200 : List ApiRequestRow → List ApiRequestRow) (weekday month_day : ℕ → Text) (w : World)
      → ((fetch_dashboard_data any_200 weekday month_day user m now w).weekly_chart
          ≡ map (exact_point weekday w) (countdown 7))
        × (drop 1 (fetch_dashboard_data any_200 weekday month_day user m now w).monthly_chart
            ≡ map (exact_point month_day w) (countdown 29))
  unfolding fetch_dashboard_data build_daily_timeline
  fetch_dashboard_data-charts any_200 weekday month_day w = (
    timeline-exact any_200 weekday month_day weekday w 7 (omega arith),
    timeline-exact any_200 weekday month_day month_day w 29 (omega arith),
  )
