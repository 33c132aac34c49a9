-- ===== src/Projection/Dispatches.antt =====
-- apps/projection-worker/src/dispatch-projection.ts: the dispatch events, into the `dispatches`
-- collection.
use flash_bite.Prelude.{ℕ, String, ◌+◌, ◌*◌, Option, none, some, ltb, if◌then◌else◌}
use flash_bite.Contracts.{
  Event, EventEnvelope, DispatchView, DispatchStatus, driver_offered, dispatch_accepted,
  order_picked_up, order_delivered,
}
use flash_bite.Stores.{KeyedStore}
use flash_bite.Projection.{
  view_key, payload_order_id, ProcessedEvent, dispatch_consumer, apply_once, Applied, Collections,
}

-- The fields that an event sets beside those of `base`; those left out are `none`.
pub record DispatchSet : Type 0 where
  pub status : DispatchStatus
  pub driver_id : Option String
  pub offered_driver_id : Option String
  pub reason : Option String
  pub offer_expires_at : Option ℕ

abbrev only : DispatchStatus → DispatchSet
only status = record {
  status = status;
  driver_id = none;
  offered_driver_id = none;
  reason = none;
  offer_expires_at = none;
}

-- The `switch`; `none` is `set = null`. Times are milliseconds.
unfoldable pub dispatch_set : ℕ → ℕ → Event → Option DispatchSet
dispatch_set offer_timeout_seconds occurred_at (driver_offered p) =
    some (record (only DispatchStatus.offered) {
      offered_driver_id = some p.driver_id;
      offer_expires_at = some (occurred_at + offer_timeout_seconds * 1000);
    })
dispatch_set offer_timeout_seconds occurred_at (dispatch_accepted p) =
    some (record (only DispatchStatus.dispatched) { driver_id = some p.driver_id })
dispatch_set offer_timeout_seconds occurred_at (order_picked_up _) =
    some (only DispatchStatus.picked_up)
dispatch_set offer_timeout_seconds occurred_at (order_delivered _) =
    some (only DispatchStatus.delivered)
dispatch_set offer_timeout_seconds occurred_at (Event.dispatch_failed p) =
    some (record (only DispatchStatus.failed) { reason = some p.reason })
dispatch_set offer_timeout_seconds occurred_at _ = none

abbrev pub or_kept {ℓ} : {A : Type ℓ} → Option A → Option A → Option A
or_kept none old = old
or_kept (some x) old = some x

abbrev pub set_on_new : EventEnvelope → DispatchSet → DispatchView
set_on_new envelope set = record {
  tenant_id = envelope.tenant_id;
  order_id = payload_order_id envelope.event;
  status = set.status;
  driver_id = set.driver_id;
  offered_driver_id = set.offered_driver_id;
  reason = set.reason;
  version = envelope.version;
  updated_at = envelope.occurred_at;
  offer_expires_at = set.offer_expires_at;
}

abbrev pub set_on_old : EventEnvelope → DispatchSet → DispatchView → DispatchView
set_on_old envelope set view = record {
  tenant_id = envelope.tenant_id;
  order_id = payload_order_id envelope.event;
  status = set.status;
  driver_id = or_kept set.driver_id view.driver_id;
  offered_driver_id = or_kept set.offered_driver_id view.offered_driver_id;
  reason = or_kept set.reason view.reason;
  version = envelope.version;
  updated_at = envelope.occurred_at;
  offer_expires_at = or_kept set.offer_expires_at view.offer_expires_at;
}

-- The document that the update writes; `none` when the version guard stops it.
unfoldable pub written_dispatch :
    EventEnvelope → Option DispatchSet → Option DispatchView → Option DispatchView
written_dispatch envelope none existing = none
written_dispatch envelope (some set) none = some (set_on_new envelope set)
written_dispatch envelope (some set) (some view) =
    if ltb view.version envelope.version then some (set_on_old envelope set view) else none

module _ (dispatches : KeyedStore String DispatchView) where
  unfoldable pub project_dispatch : ℕ → EventEnvelope → dispatches.Db → dispatches.Db
  unfolding written_dispatch dispatch_set view_key payload_order_id
  project_dispatch offer_timeout_seconds envelope db =
      let set = dispatch_set offer_timeout_seconds envelope.occurred_at envelope.event in
      elim (written_dispatch envelope set (dispatches.find db (view_key envelope))) [
        | none ↦ db
        | some view ↦ dispatches.put db (view_key envelope) view
      ]

  unfoldable pub apply_dispatch_event :
      (processed : KeyedStore String ProcessedEvent)
      → ℕ
      → EventEnvelope
      → Collections DispatchView dispatches processed
      → Applied × Collections DispatchView dispatches processed
  unfolding project_dispatch apply_once
  apply_dispatch_event processed offer_timeout_seconds envelope =
      apply_once DispatchView dispatches processed (project_dispatch offer_timeout_seconds)
        dispatch_consumer envelope
