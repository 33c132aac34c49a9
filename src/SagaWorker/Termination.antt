-- ===== src/SagaWorker/Termination.antt =====
-- The ends of both workflows of apps/saga-worker/src (workflows.ts, dispatch-workflow.ts).
use flash_bite.Prelude.{ℕ, List}
use flash_bite.SagaWorker.OrderWorkflow
use flash_bite.SagaWorker.DispatchWorkflow
use flash_bite.SagaWorker.OrderWorkflow.Termination as Order
use flash_bite.SagaWorker.DispatchWorkflow.Termination as Dispatch

-- However many signals come, no run of an order's workflow has more than six answers to what it waits
-- for, none of a dispatch's more than 3 * max + 11, where max offers are made at most, and a run that
-- has not ended its workflow can be answered once more.
pub workflows_terminate :
    (max : ℕ) (os : List OrderWorkflow.Event) (ds : List DispatchWorkflow.Event)
    → Order.Ends os × Dispatch.Ends max ds
workflows_terminate max os ds = (Order.order_terminates os, Dispatch.dispatch_terminates max ds)
