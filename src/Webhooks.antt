-- ===== src/Webhooks.antt =====
-- apps/web/app/api/webhooks and apps/web/app/api/[version]/webhooks: the four providers' webhooks.
pub mod Shared
pub mod Fawry
pub mod Paymob
pub mod Stripe
pub mod Mock
pub mod Dispatch
pub mod Applied
pub mod Terminal
pub mod Authentic
pub mod Unsigned
pub mod Tests
