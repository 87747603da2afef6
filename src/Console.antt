-- ===== src/Console.antt =====
-- What a signed-in merchant does in the console: API keys and settings, by apps/web/app/api/api-keys,
-- apps/web/app/api/merchant and the server actions of apps/web/app/actions.
pub mod Session
pub mod Schema
pub mod Keys
pub mod Settings
pub mod Ping
pub mod Tests
