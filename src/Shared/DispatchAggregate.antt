-- ===== src/Shared/DispatchAggregate.antt =====
-- packages/shared/src/dispatch-aggregate.ts: the dispatch of an order, its fold and its commands.
pub mod Lifecycle
use flash_bite.Prelude.{
  String, ◌<>◌, Bool, true, false, Option, none, some, Result, ok, throw, invalid_transition, ◌==◌,
  if◌then◌else◌,
}
use flash_bite.Contracts.{
  DriverOfferedPayload, DispatchAcceptedPayload, OrderPickedUpPayload, OrderDeliveredPayload,
  DispatchFailedPayload, Event, driver_offered, dispatch_accepted, order_picked_up, order_delivered,
  DispatchStatus,
}

pub record DispatchState : Type 0 where
  pub status : Option DispatchStatus
  pub offered_driver_id : Option String
  pub driver_id : Option String
  pub reason : Option String

abbrev pub initial_dispatch_state : DispatchState
initial_dispatch_state = record {
  status = none;
  offered_driver_id = none;
  driver_id = none;
  reason = none;
}

-- The `switch` of `foldDispatch`; the last clause is its `default`.
unfoldable pub fold_dispatch : DispatchState → Event → DispatchState
fold_dispatch state (driver_offered p) = record state {
  status = some DispatchStatus.offered;
  offered_driver_id = some p.driver_id;
}
fold_dispatch state (dispatch_accepted p) = record state {
  status = some DispatchStatus.dispatched;
  driver_id = some p.driver_id;
}
fold_dispatch state (order_picked_up _) = record state { status = some DispatchStatus.picked_up }
fold_dispatch state (order_delivered _) = record state { status = some DispatchStatus.delivered }
fold_dispatch state (Event.dispatch_failed p) = record state {
  status = some DispatchStatus.failed;
  reason = some p.reason;
}
fold_dispatch state _ = state

-- `String(status)`
abbrev pub status_text : Option DispatchStatus → String
status_text none = "null"
status_text (some DispatchStatus.offered) = "OFFERED"
status_text (some DispatchStatus.dispatched) = "DISPATCHED"
status_text (some DispatchStatus.picked_up) = "PICKED_UP"
status_text (some DispatchStatus.delivered) = "DELIVERED"
status_text (some DispatchStatus.failed) = "FAILED"

unfoldable pub offer : DispatchState → String → String → Result DriverOfferedPayload
offer state order_id driver_id = elim state.status [
  | none ↦ ok (record { order_id = order_id; driver_id = driver_id })
  | some DispatchStatus.offered ↦ ok (record { order_id = order_id; driver_id = driver_id })
  | some _ ↦ throw (invalid_transition ("cannot offer in status " <> status_text state.status))
]

-- `state.offeredDriverId !== driverId`, negated
abbrev offered_to : Option String → String → Bool
offered_to none driver_id = false
offered_to (some d) driver_id = d == driver_id

unfoldable pub accept_offer : DispatchState → String → String → Result DispatchAcceptedPayload
accept_offer state order_id driver_id =
    let refused : Result DispatchAcceptedPayload = throw (
      invalid_transition
        ("cannot accept in status " <> status_text state.status <> " by " <> driver_id)) in
    elim state.status [
      | some DispatchStatus.offered ↦
          if offered_to state.offered_driver_id driver_id
          then ok (record { order_id = order_id; driver_id = driver_id })
          else refused
      | _ ↦ refused
    ]

unfoldable pub pickup : DispatchState → String → Result OrderPickedUpPayload
pickup state order_id = elim state.status [
  | some DispatchStatus.dispatched ↦ ok (record { order_id = order_id })
  | _ ↦ throw (invalid_transition ("cannot pick up in status " <> status_text state.status))
]

unfoldable pub deliver : DispatchState → String → Result OrderDeliveredPayload
deliver state order_id = elim state.status [
  | some DispatchStatus.picked_up ↦ ok (record { order_id = order_id })
  | _ ↦ throw (invalid_transition ("cannot deliver in status " <> status_text state.status))
]

-- `TERMINAL.includes`
abbrev pub is_terminal : DispatchStatus → Bool
is_terminal DispatchStatus.delivered = true
is_terminal DispatchStatus.failed = true
is_terminal _ = false

abbrev blocks_fail : Option DispatchStatus → Bool
blocks_fail none = false
blocks_fail (some status) = is_terminal status

unfoldable pub fail : DispatchState → String → String → Result DispatchFailedPayload
fail state order_id reason =
    if blocks_fail state.status
    then throw (invalid_transition ("cannot fail in terminal status " <> status_text state.status))
    else ok (record { order_id = order_id; reason = reason })
