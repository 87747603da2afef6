-- ===== src/Gateway.antt =====
-- apps/web/lib/gateway-bridge.ts: the web service as a client of the Rust gateway.
pub mod Bridge
pub mod Headers
