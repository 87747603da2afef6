-- ===== src/Payments.antt =====
-- apps/web/app/api/[version]/payments: creating, listing and reading payments.
pub mod Api
pub mod Input
pub mod Stripe
pub mod Create
pub mod Retrieve
pub mod List
