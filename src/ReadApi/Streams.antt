-- ===== src/ReadApi/Streams.antt =====
-- apps/read-api/src/sse and src/dispatch: what the streams send of an event, and to whom.
pub mod Agreement
pub mod Followers
use flash_bite.Prelude.{
  ℕ, String, ◌+◌, ◌*◌, Bool, true, false, not, ◌&&◌, ◌||◌, List, [], ◌∷◌, Option, none, some,
  includes, or_else, ◌==◌, if◌then◌else◌,
}
use flash_bite.Contracts.{
  Event, EventEnvelope, OrderStatus, DispatchStatus, DispatchView, event_type, driver_offered,
  dispatch_accepted, order_picked_up, order_delivered, order_cancelled, driver_telemetry_streamed,
}
use flash_bite.Projection.{payload_order_id}

pub record OrderStreamEvent : Type 0 where
  pub order_id : String
  pub event_type : String
  pub status : OrderStatus
  pub cancel_reason : Option String

abbrev cancel_reason_of : Event → Option String
cancel_reason_of (order_cancelled p) = some p.reason
cancel_reason_of _ = none

-- `p.orderId ?? ""`
abbrev order_id_or_empty : Event → String
order_id_or_empty (driver_telemetry_streamed p) = or_else p.order_id ""
order_id_or_empty event = payload_order_id event

unfoldable pub to_stream_event : EventEnvelope → OrderStreamEvent
unfolding event_type payload_order_id
to_stream_event envelope = record {
  order_id = order_id_or_empty envelope.event;
  event_type = event_type envelope.event;
  status = OrderStatus.placed;
  cancel_reason = cancel_reason_of envelope.event;
}

abbrev base : EventEnvelope → String → DispatchStatus → DispatchView
base envelope order_id status = record {
  tenant_id = envelope.tenant_id;
  order_id = order_id;
  status = status;
  driver_id = none;
  offered_driver_id = none;
  reason = none;
  version = envelope.version;
  updated_at = envelope.occurred_at;
  offer_expires_at = none;
}

abbrev view_of : ℕ → EventEnvelope → Event → Option DispatchView
view_of offer_timeout_seconds envelope (driver_offered p) =
    some (record (base envelope p.order_id DispatchStatus.offered) {
      offered_driver_id = some p.driver_id;
      offer_expires_at = some (envelope.occurred_at + offer_timeout_seconds * 1000);
    })
view_of offer_timeout_seconds envelope (dispatch_accepted p) =
    some
      (record (base envelope p.order_id DispatchStatus.dispatched) { driver_id = some p.driver_id })
view_of offer_timeout_seconds envelope (order_picked_up p) =
    some (base envelope p.order_id DispatchStatus.picked_up)
view_of offer_timeout_seconds envelope (order_delivered p) =
    some (base envelope p.order_id DispatchStatus.delivered)
view_of offer_timeout_seconds envelope (Event.dispatch_failed p) =
    some (record (base envelope p.order_id DispatchStatus.failed) { reason = some p.reason })
view_of offer_timeout_seconds envelope _ = none

unfoldable pub to_dispatch_view : ℕ → EventEnvelope → Option DispatchView
to_dispatch_view offer_timeout_seconds envelope =
    view_of offer_timeout_seconds envelope envelope.event

-- `a === b` of an optional text and a text
abbrev pub is_id : Option String → String → Bool
is_id none id = false
is_id (some d) id = d == id

unfoldable pub is_for_driver : DispatchView → String → Bool
is_for_driver view driver_id =
    is_id view.offered_driver_id driver_id || is_id view.driver_id driver_id

-- Whether the connection sends the view, and the orders that it takes the driver to own from now on.
unfoldable pub accept_for_driver : List String → DispatchView → String → Bool × List String
unfolding is_for_driver
accept_for_driver owned view driver_id =
    let owned' = if is_id view.driver_id driver_id then view.order_id ∷ owned else owned in
    (is_for_driver view driver_id || includes view.order_id owned', owned')

-- `v.driverId ? v : { ...v, driverId }`
unfoldable pub stamped : String → DispatchView → DispatchView
stamped driver_id view = elim view.driver_id [
  | none ↦ record view { driver_id = some driver_id }
  | some d ↦ if d == "" then record view { driver_id = some driver_id } else view
]

-- what a connection sends of the views that come, in their order
unfoldable pub driver_stream : String → List String → List DispatchView → List DispatchView
unfolding accept_for_driver stamped
driver_stream driver_id owned [] = []
driver_stream driver_id owned (view ∷ views) =
    let (sends, owned') = accept_for_driver owned view driver_id in
    let rest = driver_stream driver_id owned' views in
    if sends then stamped driver_id view ∷ rest else rest

pub record DeliveryView : Type 0 where
  pub tenant_id : String
  pub order_id : String
  pub status : DispatchStatus
  pub reason : Option String
  pub version : ℕ
  pub updated_at : ℕ

unfoldable pub to_delivery_view : DispatchView → DeliveryView
to_delivery_view v = record {
  tenant_id = v.tenant_id;
  order_id = v.order_id;
  status = v.status;
  reason = v.reason;
  version = v.version;
  updated_at = v.updated_at;
}
