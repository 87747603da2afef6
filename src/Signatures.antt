-- ===== src/Signatures.antt =====
-- apps/web/lib/cryptographic-signatures.ts, and the webhook signatures of the two Egyptian rails.
pub mod Compare
pub mod Canonical
pub mod Rails
pub mod Order
pub mod Tests
