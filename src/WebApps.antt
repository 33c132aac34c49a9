-- ===== src/WebApps.antt =====
-- apps/web-customer, apps/web-driver and apps/web-admin: the state that their pages keep, without what
-- they draw of it.
pub mod Tracking
pub mod Checkout
pub mod MerchantPage
pub mod DriverPage
pub mod AdminData
