-- ===== src/Projection.antt =====
-- apps/projection-worker: the read model that the order and dispatch events are projected to. The
-- three collections are stores by `_id`; an update that `$set`s some fields leaves the others.
pub mod Orders
pub mod Dispatches
pub mod Replay
pub mod Redelivery
pub mod Rebuild
pub mod Consumers
use flash_bite.Prelude.{
  String, ◌<>◌, Bool, true, false, Option, or_else, Result, ok, throw, is_some, if◌then◌else◌,
}
use flash_bite.Contracts.{
  Event, EventEnvelope, OrderView, DispatchView, order_placed, order_accepted, order_cancelled,
  driver_telemetry_streamed, driver_offered, dispatch_accepted, order_picked_up, order_delivered,
  other,
}
use flash_bite.Contracts.Keys.{scoped_id}
use flash_bite.Stores.{KeyedStore}

-- `(payload as { orderId: string }).orderId`, as a template literal prints it
unfoldable pub payload_order_id : Event → String
payload_order_id (order_placed p) = p.order_id
payload_order_id (order_accepted p) = p.order_id
payload_order_id (order_cancelled p) = p.order_id
payload_order_id (driver_telemetry_streamed p) = or_else p.order_id "undefined"
payload_order_id (driver_offered p) = p.order_id
payload_order_id (dispatch_accepted p) = p.order_id
payload_order_id (order_picked_up p) = p.order_id
payload_order_id (order_delivered p) = p.order_id
payload_order_id (Event.dispatch_failed p) = p.order_id
payload_order_id (other name order_id) = order_id

unfoldable pub view_key : EventEnvelope → String
unfolding scoped_id payload_order_id
view_key envelope = scoped_id envelope.tenant_id (payload_order_id envelope.event)

-- The groups that the two consumers read the topics in
abbrev pub projection_consumer : String
projection_consumer = "projection-worker"

abbrev pub dispatch_consumer : String
dispatch_consumer = "dispatch-projection"

unfoldable pub inbox_id : String → EventEnvelope → String
inbox_id consumer envelope = envelope.tenant_id <> ":" <> consumer <> ":" <> envelope.event_id

pub data Applied : Type 0 where
  applied skipped : Applied

-- A document of the inbox; nobody reads its `processedAt`.
pub record ProcessedEvent : Type 0 where
  pub tenant_id : String
  pub consumer : String
  pub event_id : String

-- The inbox around a projection. `insertOne` refuses an `_id` that is taken, and that refusal is
-- ignored.
module _ (View : Type 0) (views : KeyedStore String View)
    (processed : KeyedStore String ProcessedEvent) where
  pub record Collections : Type 0 where
    pub view : views.Db
    pub inbox : processed.Db

  unfoldable pub mark_processed : String → EventEnvelope → processed.Db → processed.Db
  unfolding inbox_id
  mark_processed consumer envelope inbox =
      let id = inbox_id consumer envelope in
      if is_some (processed.find inbox id)
      then inbox
      else processed.put inbox id (record {
        tenant_id = envelope.tenant_id;
        consumer = consumer;
        event_id = envelope.event_id;
      })

  unfoldable pub apply_once :
      (EventEnvelope → views.Db → views.Db)
      → String
      → EventEnvelope
      → Collections
      → Applied × Collections
  unfolding mark_processed inbox_id
  apply_once project consumer envelope db =
      if is_some (processed.find db.inbox (inbox_id consumer envelope))
      then (Applied.skipped, db)
      else (
        Applied.applied,
        record {
          view = project envelope db.view;
          inbox = mark_processed consumer envelope db.inbox;
        },
      )
