-- ===== src/SagaWorker/OrderWorkflow.antt =====
-- apps/saga-worker/src/workflows.ts: `orderLifecycleWorkflow` as a state machine. Each `await` of the
-- function is a state; what Temporal delivers (a signal, the end of a timer, the outcome of an
-- activity or of the child workflow) is an event. An activity's retries are Temporal's: an event is
-- its last outcome. Signals are handled one at a time, and at any await.
pub mod Traces
pub mod Termination
use flash_bite.Prelude.{ℕ, Bool, true, false, List, [], ◌∷◌, ◌++◌, Option, none, some}
use flash_bite.Contracts.{
  CancelReason, sla_breach, declined_by_merchant, payment_failed, payment_timeout, SagaResult,
  cancelled_sla, cancelled_declined, cancelled_payment_failed, cancelled_payment_timeout, delivered,
  dispatch_failed, DispatchStatus,
}

-- What the workflow asks others to do.
pub data Activity : Type 0 where
  authorize_payment capture_payment void_payment record_accepted run_dispatch : Activity
  record_cancelled : CancelReason → Activity

-- How an activity ended: it returned, `refused` is an authorization with `authorized: false`, and
-- `threw` an exception that Temporal does not retry any more.
pub data Outcome : Type 0 where
  returned refused threw : Outcome

-- Where the function waits. `voiding_after_capture` is the `catch` of the capture, and
-- `voiding r` the last two statements.
pub data Await : Type 0 where
  confirm authorizing approval capturing voiding_after_capture accepting dispatching : Await
  voiding : CancelReason → Await
  cancelling : CancelReason → Await
  finished : SagaResult → Await
  crashed : Await

pub record OrderWorkflow : Type 0 where
  pub confirmed : Bool
  pub approved : Option Bool
  pub at : Await
  -- the activities that have ended, in their order
  pub trace : List (Activity × Outcome)

pub data Event : Type 0 where
  confirm_payment timer_fired : Event
  merchant_approval : Bool → Event
  activity_ended : Outcome → Event
  child_ended : DispatchStatus → Event

unfoldable pub start : OrderWorkflow
start = record { confirmed = false; approved = none; at = confirm; trace = [] }

-- `dispatchResult`
unfoldable pub dispatch_result : DispatchStatus → SagaResult
dispatch_result DispatchStatus.delivered = delivered
dispatch_result _ = dispatch_failed

-- What a cancellation for a reason makes the workflow return.
abbrev pub cancelled_result : CancelReason → SagaResult
cancelled_result sla_breach = cancelled_sla
cancelled_result declined_by_merchant = cancelled_declined
cancelled_result payment_failed = cancelled_payment_failed
cancelled_result payment_timeout = cancelled_payment_timeout

-- From the second `condition`: `signalledInTime` is `true`, and `approved` is set.
abbrev decided : Bool → Await
decided true = capturing
decided false = voiding declined_by_merchant

abbrev await_approval : Option Bool → Await
await_approval none = approval
await_approval (some value) = decided value

abbrev pub goto : Await → OrderWorkflow → OrderWorkflow
goto await wf = record wf { at = await }

abbrev pub log : Activity → Outcome → OrderWorkflow → OrderWorkflow
log activity outcome wf = record wf { trace = wf.trace ++ (activity, outcome) ∷ [] }

-- A `condition` that waits is resolved as soon as its predicate holds.
confirm_signalled : Await → OrderWorkflow → OrderWorkflow
confirm_signalled confirm wf = goto authorizing (record wf { confirmed = true })
confirm_signalled _ wf = record wf { confirmed = true }

approval_signalled : Await → Bool → OrderWorkflow → OrderWorkflow
approval_signalled approval value wf = goto (decided value) (record wf { approved = some value })
approval_signalled _ value wf = record wf { approved = some value }

timed_out : Await → OrderWorkflow → OrderWorkflow
timed_out confirm wf = goto (cancelling payment_timeout) wf
timed_out approval wf = goto (voiding sla_breach) wf
timed_out _ wf = wf

-- What follows the activity that the workflow waits for. Other events cannot happen there.
ended : Await → Outcome → OrderWorkflow → OrderWorkflow
ended authorizing returned wf =
    goto (await_approval wf.approved) (log authorize_payment returned wf)
ended authorizing refused wf = goto (cancelling payment_failed) (log authorize_payment refused wf)
ended authorizing threw wf = goto (cancelling payment_failed) (log authorize_payment threw wf)
ended capturing threw wf = goto voiding_after_capture (log capture_payment threw wf)
ended capturing returned wf = goto accepting (log capture_payment returned wf)
ended voiding_after_capture returned wf =
    goto (cancelling payment_failed) (log void_payment returned wf)
ended voiding_after_capture threw wf = goto (cancelling payment_failed) (log void_payment threw wf)
ended accepting returned wf = goto dispatching (log record_accepted returned wf)
ended accepting threw wf = goto crashed (log record_accepted threw wf)
ended dispatching threw wf = goto (finished dispatch_failed) (log run_dispatch threw wf)
ended (voiding reason) returned wf = goto (cancelling reason) (log void_payment returned wf)
ended (voiding reason) threw wf = goto crashed (log void_payment threw wf)
ended (cancelling reason) returned wf =
    goto (finished (cancelled_result reason)) (log (record_cancelled reason) returned wf)
ended (cancelling reason) threw wf = goto crashed (log (record_cancelled reason) threw wf)
ended _ _ wf = wf

child_returned : Await → DispatchStatus → OrderWorkflow → OrderWorkflow
child_returned dispatching status wf =
    goto (finished (dispatch_result status)) (log run_dispatch returned wf)
child_returned _ status wf = wf

unfoldable pub step : OrderWorkflow → Event → OrderWorkflow
unfolding confirm_signalled approval_signalled timed_out ended child_returned dispatch_result
step wf confirm_payment = confirm_signalled wf.at wf
step wf (merchant_approval value) = approval_signalled wf.at value wf
step wf timer_fired = timed_out wf.at wf
step wf (activity_ended outcome) = ended wf.at outcome wf
step wf (child_ended status) = child_returned wf.at status wf

unfoldable pub run : OrderWorkflow → List Event → OrderWorkflow
run wf [] = wf
run wf (e ∷ es) = run (step wf e) es
