-- ===== src/Lib.antt =====
-- FlashBite: a food-delivery platform of several services, in TypeScript, for many tenants. Orders and
-- their dispatches are event-sourced in Postgres; an outbox carries the events to Kafka; workers
-- project them to Mongo and run each order's saga in Temporal; APIs take commands and serve reads and
-- live streams to the browser apps.
--
-- How the parts interact, and the module of each:
-- Contracts (packages/contracts/src/index.ts): events, statuses, views and keys that all parts share.
-- Shared (packages/shared/src): OrderAggregate and DispatchAggregate (order-aggregate.ts,
--   dispatch-aggregate.ts) decide for events; AggregateStore (aggregate-store.ts, envelope.ts,
--   tenant-transaction.ts) loads and appends them; TenantCatalog (tenant-catalog.ts) caches tenants;
--   Config (config.ts) reads the environment.
-- TenantContext (packages/tenant-context/src): who a request is from, and the two guards.
-- WriteApi (apps/write-api/src/orders): Orders places an order by one append; Signals reaches the
--   workflows for merchants, customers and drivers.
-- SagaWorker (apps/saga-worker/src): Consumer and Starts (main.ts) start the OrderWorkflow
--   (workflows.ts) of each order that is placed, which starts the DispatchWorkflow (dispatch-workflow.ts); their activities
--   append to the streams (Activities, DispatchActivities), choose a driver (Drivers) and call the
--   payments service (PaymentsClient).
-- Payments (apps/payments/src): holds, captures and voids, for the saga; Overlap, where they overlap.
-- Identity (apps/identity/src/auth): RefreshTokens (refresh-token.service.ts), SigningKeys and KeyCipher
--   (key.service.ts, key-cipher.ts), Login (auth.service.ts, token.service.ts, auth.controller.ts) and
--   Cookies (cookie.ts).
-- Messaging (packages/messaging/src): Headers (headers.ts), Serde (serde.ts, register.ts), Consume
--   (consume.ts, and the handler that the consumers share) and Wire, a message from end to end.
-- Outbox (apps/outbox-poller/src/poller.ts, packages/messaging/src/publish.ts): the outbox to Kafka.
-- Telemetry (apps/telemetry-worker/src, apps/read-api/src/drivers/telemetry-producer.service.ts):
--   drivers' positions, from the API over a topic into Redis.
-- Projection (apps/projection-worker/src): Orders (projection.ts) and Dispatches
--   (dispatch-projection.ts), with their inbox; Consumers (main.ts); Rebuild and Replay (rebuild.ts).
-- ReadApi (apps/read-api/src): Queries (tenant-scope.ts, dispatch), Orders (orders), Drivers (drivers,
--   dispatch/driver-location.ts), Admin (admin), Streams and Feeder (sse, dispatch/delivery-view.ts).
-- WebShared (packages/web-shared/src): Session (store/auth-store.ts), Client (api/client.ts), Live
--   (the hooks of the streams), Catalog, Cart, Orders, Dispatches, Analytics and Rankings, the browser's
--   state.
-- WebApps: the pages' state, Tracking and Checkout (apps/web-customer/app), DriverPage (apps/web-driver),
--   MerchantPage (apps/web-merchant) and AdminData (apps/web-admin/hooks).
-- Stores: tables and collections that are addressed by a unique key. Prelude: shared names. Tests:
--   concrete tables and stores, and the theorems applied to them.
--
-- How state and operations correspond to the code: a method is a function of the same name that takes
-- the state and returns its answer with the new state; what it throws is a value of `Result`. Code of
-- Prisma, Mongo, Redis, Kafka and Temporal is not here: each is a record of operations with the laws
-- that it is documented to obey (EventDb, KeyedStore, Clearing, RefreshTable, KeyTable,
-- DispatchCollection, Redis, GeoSets, Cache, Broker, Registry, Gcm, Jose, Temporal), or an argument.
-- `randomUUID()`, `Date.now()` and random bytes are arguments.
-- Event type and payload are one tagged `Event`; a type that the contracts do not list is `other`.
-- A workflow is a state machine: each `await` is a state, and signals, ends of timers and last outcomes
-- of activities are events, handled one at a time. The writers of a stream interleave as steps: a load,
-- and an append at any later time. So do the reads of an order, which have three awaits each.
--
-- Bounds: times are milliseconds and amounts whole cents, natural numbers without an upper bound, as
-- the validation of requests admits no others; a difference of times is compared without subtracting.
-- Coordinates are texts. No function runs on fuel: loops are recursion on their lists, and the
-- workflows and the pages are steps over the events that come. A poll of the outbox takes at most 100
-- rows and the customer's page makes at most 170 tries, as the source does.
--
-- Not modelled: rendering, and pages that are left in the middle of a tick; framework modules, start-up
-- and seeds; logging; and requests to the identity service that overlap.
pub mod Prelude
pub mod Contracts
pub mod Stores
pub mod Shared
pub mod TenantContext
pub mod WriteApi
pub mod SagaWorker
pub mod Payments
pub mod Identity
pub mod Messaging
pub mod Outbox
pub mod Telemetry
pub mod Projection
pub mod ReadApi
pub mod WebShared
pub mod WebApps
pub mod Tests
