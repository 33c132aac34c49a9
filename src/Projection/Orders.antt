-- ===== src/Projection/Orders.antt =====
-- apps/projection-worker/src/projection.ts: the order events, into the `orders` collection.
use flash_bite.Prelude.{String, Option, none, some, ltb, if◌then◌else◌}
use flash_bite.Contracts.{
  Event, EventEnvelope, OrderPlacedPayload, OrderView, OrderStatus, order_placed, order_accepted,
  order_cancelled,
}
use flash_bite.Stores.{KeyedStore}
use flash_bite.Projection.{
  view_key, ProcessedEvent, projection_consumer, apply_once, Applied, Collections,
}

-- `$set` with `upsert`: a field that is not set keeps what the document has.
abbrev pub placed_view : EventEnvelope → OrderPlacedPayload → Option OrderView → OrderView
placed_view envelope p existing = record {
  tenant_id = envelope.tenant_id;
  order_id = p.order_id;
  customer_id = p.customer_id;
  items = p.items;
  total_amount = p.total_amount;
  status = OrderStatus.placed;
  version = envelope.version;
  updated_at = envelope.occurred_at;
  cancel_reason = elim existing [ none ↦ none | some view ↦ view.cancel_reason ];
}

abbrev pub resolved_view : EventEnvelope → OrderStatus → Option String → OrderView → OrderView
resolved_view envelope status reason view = record view {
  status = status;
  version = envelope.version;
  updated_at = envelope.occurred_at;
  cancel_reason = reason;
}

-- The document that an event writes, from the one that is there; `none` when it writes nothing.
unfoldable pub written_order : EventEnvelope → Event → Option OrderView → Option OrderView
written_order envelope (order_placed p) none = some (placed_view envelope p none)
written_order envelope (order_placed p) (some view) =
    if ltb view.version envelope.version then some (placed_view envelope p (some view)) else none
written_order envelope (order_accepted p) (some view) =
    if ltb view.version envelope.version
    then some (resolved_view envelope OrderStatus.accepted view.cancel_reason view)
    else none
written_order envelope (order_cancelled p) (some view) =
    if ltb view.version envelope.version
    then some (resolved_view envelope OrderStatus.cancelled (some p.reason) view)
    else none
written_order envelope _ existing = none

module _ (orders : KeyedStore String OrderView) where
  unfoldable pub project_order : EventEnvelope → orders.Db → orders.Db
  unfolding written_order view_key
  project_order envelope db =
      elim (written_order envelope envelope.event (orders.find db (view_key envelope))) [
        | none ↦ db
        | some view ↦ orders.put db (view_key envelope) view
      ]

  unfoldable pub apply_event :
      (processed : KeyedStore String ProcessedEvent)
      → EventEnvelope
      → Collections OrderView orders processed
      → Applied × Collections OrderView orders processed
  unfolding project_order apply_once
  apply_event processed envelope =
      apply_once OrderView orders processed project_order projection_consumer envelope
