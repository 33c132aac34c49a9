-- ===== src/Shared.antt =====
-- packages/shared/src: the aggregates, the event store that they live in, the tenant catalogue.
pub mod OrderAggregate
pub mod DispatchAggregate
pub mod EventDb
pub mod AggregateStore
pub mod TenantCatalog
pub mod Config
