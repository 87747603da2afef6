-- ===== src/Ledger.antt =====
-- apps/web/lib/payment-ledger-service.ts and payment-status-resolver.ts: the payment as the API
-- shows it, the lookup by idempotency key, and the upsert of a payment row.
pub mod Status
pub mod Terminal
pub mod Response
pub mod Idempotency
pub mod Persist
pub mod Replay
pub mod Fixed
pub mod Tests
