-- ===== src/Dashboard/Metrics/Own.antt =====
-- Whose rows the dashboard of apps/web/lib/dashboard-telemetry-service.ts is made of.
use openwrapper.Prelude.{ℕ, ◌-◌, ◌*◌, ◌≡◌, refl, List, arith, keep}
use openwrapper.Js.Text.{Text, ◌===◌}
use openwrapper.Store.{Mode, World, ApiKeyRow, ApiRequestRow, PaymentRow, column_is}
use openwrapper.Store.Newest.{select_newest}
use openwrapper.Dashboard.Groups.{keep-keep}
use openwrapper.Dashboard.Metrics.{
  day_ms, is_active_key, is_request, is_request_since, is_payment, is_payment_since, metrics_of,
  fetch_dashboard_data,
}

-- The database with the rows of one user only.
abbrev pub only : Text → World → World
only user w = record w {
  api_keys = keep (λ (k : ApiKeyRow). k.user_id === user) w.api_keys;
  api_requests = keep (λ (r : ApiRequestRow). r.user_id === user) w.api_requests;
  payments = keep (λ (p : PaymentRow). column_is p.user_id user) w.payments;
}

module _ (user : Text) (m : Mode) where
  active_key-only :
      (w : World)
      → keep (is_active_key user m) (only user w).api_keys ≡ keep (is_active_key user m) w.api_keys
  active_key-only w = keep-keep _ _ w.api_keys (λ k h. ground arith)

  request-only :
      (w : World)
      → keep (is_request user m) (only user w).api_requests
        ≡ keep (is_request user m) w.api_requests
  request-only w = keep-keep _ _ w.api_requests (λ k h. ground arith)

  request_since-only :
      (since : ℕ) (w : World)
      → keep (is_request_since user m since) (only user w).api_requests
        ≡ keep (is_request_since user m since) w.api_requests
  request_since-only since w = keep-keep _ _ w.api_requests (λ k h. ground arith)

  payment-only :
      (w : World)
      → keep (is_payment user m) (only user w).payments ≡ keep (is_payment user m) w.payments
  payment-only w = keep-keep _ _ w.payments (λ k h. ground arith)

  payment_since-only :
      (since : ℕ) (w : World)
      → keep (is_payment_since user m since) (only user w).payments
        ≡ keep (is_payment_since user m since) w.payments
  payment_since-only since w = keep-keep _ _ w.payments (λ k h. ground arith)

  -- The dashboard of a user is the same whatever rows of other users the database holds: keys, requests,
  -- payments, charts and metrics.
  pub fetch_dashboard_data-only :
      (any_200 : List ApiRequestRow → List ApiRequestRow) (weekday month_day : ℕ → Text) (now : ℕ)
      (w : World)
      → fetch_dashboard_data any_200 weekday month_day user m now (only user w)
        ≡ fetch_dashboard_data any_200 weekday month_day user m now w
  unfolding fetch_dashboard_data metrics_of select_newest
  fetch_dashboard_data-only any_200 weekday month_day now w =
      rw
        (
          active_key-only w,
          request-only w,
          payment-only w,
          request_since-only (now - day_ms) w,
          request_since-only (now - 29 * day_ms) w,
          payment_since-only (now - 29 * day_ms) w,
        )
        refl
