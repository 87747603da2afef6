-- ===== src/Access.antt =====
-- Who may call the API: version, API keys, provider credentials, body size.
pub mod Version
pub mod ApiKeys
pub mod Authenticator
pub mod Credentials
pub mod BodyReader
pub mod Bodies
pub mod Keys
pub mod Telemetry
pub mod Tests
