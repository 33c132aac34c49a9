-- ===== src/Tests.antt =====
-- Concrete tables and stores, which meet the interfaces' laws, and the theorems applied to them.
pub mod Sessions
pub mod Reads
pub mod Wires
pub mod Pages
pub mod Logins
pub mod Keys
pub mod Tables
pub mod Streams
pub mod Workers
pub mod Workflows
pub mod Access
pub mod Messages
