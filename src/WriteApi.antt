-- ===== src/WriteApi.antt =====
-- apps/write-api/src: the commands of customers, merchants and drivers.
pub mod Orders
pub mod Signals
