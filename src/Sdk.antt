-- ===== src/Sdk.antt =====
-- sdk/typescript/src: the TypeScript client.
pub mod Errors
pub mod Wire
pub mod Checks
pub mod Providers
pub mod Money
pub mod Request
pub mod Client
pub mod Signature
pub mod Agreement
pub mod Sent
pub mod Accepted
pub mod Tests
