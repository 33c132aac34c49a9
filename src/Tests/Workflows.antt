-- ===== src/Tests/Workflows.antt =====
-- Runs of the two workflows, with the theorems applied to them.
use flash_bite.Prelude.{◌≡◌, refl, true, List, [], ◌∷◌, some}
use flash_bite.Contracts.{DispatchStatus}
use flash_bite.SagaWorker.OrderWorkflow
use flash_bite.SagaWorker.OrderWorkflow.{
  Outcome, confirm_payment, activity_ended, merchant_approval, child_ended,
}
use flash_bite.SagaWorker.OrderWorkflow.Traces.{History, run-start-History}
use flash_bite.SagaWorker.DispatchWorkflow.{
  Event, selected, accept_signal, pickup_signal, deliver_signal, activity_returned, run, start,
  finished, DispatchResult, begin_round, goto, check, reply_to_offer, step,
}
use flash_bite.SagaWorker.DispatchWorkflow.Protocol.{IsLawful}
use flash_bite.SagaWorker.DispatchWorkflow.Steps.{run-start-IsLawful}
use flash_bite.SagaWorker.DispatchWorkflow.Busy.{busy_after, no_driver_stays_busy}
use flash_bite.SagaWorker.OrderWorkflow.Termination as Order
use flash_bite.SagaWorker.DispatchWorkflow.Termination as Dispatch
use flash_bite.SagaWorker.Termination.{workflows_terminate}

abbrev fulfilled_order : List OrderWorkflow.Event
fulfilled_order =
    confirm_payment
    ∷ activity_ended Outcome.returned
    ∷ merchant_approval true
    ∷ activity_ended Outcome.returned
    ∷ activity_ended Outcome.returned
    ∷ child_ended DispatchStatus.delivered
    ∷ []

run-start-History_example :
    History
      (OrderWorkflow.run OrderWorkflow.start fulfilled_order).at
      (OrderWorkflow.run OrderWorkflow.start fulfilled_order).trace
run-start-History_example = run-start-History fulfilled_order

abbrev delivered_order : List Event
delivered_order =
    selected (some "driver-1")
    ∷ activity_returned
    ∷ accept_signal "driver-1"
    ∷ activity_returned
    ∷ activity_returned
    ∷ pickup_signal
    ∷ activity_returned
    ∷ deliver_signal
    ∷ activity_returned
    ∷ activity_returned
    ∷ []

run-start-IsLawful_example : IsLawful 3 (run 3 (start 3) delivered_order)
run-start-IsLawful_example = run-start-IsLawful 3 delivered_order

run_delivers : (run 3 (start 3) delivered_order).at ≡ finished DispatchResult.delivered
unfolding run start step begin_round goto check reply_to_offer
run_delivers = refl

no_driver_stays_busy_example : busy_after [] (run 3 (start 3) delivered_order).issued ≡ []
no_driver_stays_busy_example =
    no_driver_stays_busy 3 delivered_order DispatchResult.delivered run_delivers

workflows_terminate_example : Order.Ends fulfilled_order × Dispatch.Ends 3 delivered_order
workflows_terminate_example = workflows_terminate 3 fulfilled_order delivered_order
