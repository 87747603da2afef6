-- ===== src/Payments/Create.antt =====
-- `POST` of apps/web/app/api/[version]/payments/route.ts, in the order of its stages: `Admit` reads
-- the request, `Replay` looks the idempotency key up, `Route` asks a provider, `Post` puts them
-- together and stores the payment.
pub mod Admit
pub mod Replay
pub mod Gateway
pub mod Route
pub mod Post
pub mod Admission
pub mod Stages
pub mod Idempotence
pub mod Safe
pub mod Untouched
pub mod Fallback
pub mod Simulated
pub mod SimulatedTests
pub mod Tests
