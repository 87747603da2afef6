-- ===== src/Dashboard.antt =====
-- apps/web/lib/dashboard-telemetry-service.ts: what the dashboard shows, and the cache in front of it.
pub mod Cache
pub mod Groups
pub mod Percentile
pub mod Metrics
pub mod Route
pub mod Tests
