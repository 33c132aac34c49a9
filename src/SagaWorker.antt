-- ===== src/SagaWorker.antt =====
-- apps/saga-worker/src: the activities and the two workflows of an order.
pub mod Starts
pub mod Consumer
pub mod Activities
pub mod DispatchActivities
pub mod PaymentsClient
pub mod Drivers
pub mod OrderWorkflow
pub mod DispatchWorkflow
pub mod Termination
