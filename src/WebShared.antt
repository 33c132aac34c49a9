-- ===== src/WebShared.antt =====
-- packages/web-shared/src: the state that the browser apps keep, and the figures that they show.
pub mod Cart
pub mod Client
pub mod Rankings
pub mod Catalog
pub mod Live
pub mod Orders
pub mod Session
pub mod Analytics
pub mod Dispatches
