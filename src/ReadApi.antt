-- ===== src/ReadApi.antt =====
-- apps/read-api: the live streams that the browsers follow.
pub mod Orders
pub mod Streams
pub mod Queries
pub mod Admin
pub mod Feeder
pub mod Drivers
