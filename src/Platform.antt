-- ===== src/Platform.antt =====
-- Services of apps/web that the pages and the routes share: amounts as text, public origins, and the
-- health route.
pub mod Format
pub mod Origin
pub mod Health
pub mod Tests
