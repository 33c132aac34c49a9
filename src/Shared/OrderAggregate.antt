-- ===== src/Shared/OrderAggregate.antt =====
-- packages/shared/src/order-aggregate.ts: the order's state, its fold and its commands.
pub mod Lifecycle
use flash_bite.Prelude.{
  ℕ, String, ◌<>◌, List, Option, none, some, Result, ok, throw, invalid_transition,
}
use flash_bite.Contracts.{
  OrderItem, OrderPlacedPayload, OrderAcceptedPayload, OrderCancelledPayload, Event, order_placed,
  order_accepted, order_cancelled, OrderStatus,
}

pub record OrderState : Type 0 where
  pub status : Option OrderStatus
  pub customer_id : Option String
  pub items : Option (List OrderItem)
  pub total_amount : Option ℕ
  pub cancel_reason : Option String

abbrev pub initial_order_state : OrderState
initial_order_state = record {
  status = none;
  customer_id = none;
  items = none;
  total_amount = none;
  cancel_reason = none;
}

-- The `switch` of `foldOrder`; the last clause is its `default`.
unfoldable pub fold_order : OrderState → Event → OrderState
fold_order state (order_placed p) = record {
  status = some OrderStatus.placed;
  customer_id = some p.customer_id;
  items = some p.items;
  total_amount = some p.total_amount;
  cancel_reason = none;
}
fold_order state (order_accepted _) = record state { status = some OrderStatus.accepted }
fold_order state (order_cancelled p) = record state {
  status = some OrderStatus.cancelled;
  cancel_reason = some p.reason;
}
fold_order state _ = state

-- `String(status)`
abbrev status_text : Option OrderStatus → String
status_text none = "null"
status_text (some OrderStatus.placed) = "PLACED"
status_text (some OrderStatus.accepted) = "ACCEPTED"
status_text (some OrderStatus.cancelled) = "CANCELLED"

-- place: the payload, or `none` when the order exists already
unfoldable pub place : OrderState → OrderPlacedPayload → Option OrderPlacedPayload
place state cmd = elim state.status [ none ↦ some cmd | some _ ↦ none ]

unfoldable pub accept : OrderState → String → Result OrderAcceptedPayload
accept state order_id = elim state.status [
  | some OrderStatus.placed ↦ ok (record { order_id = order_id })
  | _ ↦ throw (invalid_transition ("cannot accept order in status " <> status_text state.status))
]

unfoldable pub cancel : OrderState → String → String → Result OrderCancelledPayload
cancel state order_id reason = elim state.status [
  | some OrderStatus.placed ↦ ok (record { order_id = order_id; reason = reason })
  | _ ↦ throw (invalid_transition ("cannot cancel order in status " <> status_text state.status))
]
