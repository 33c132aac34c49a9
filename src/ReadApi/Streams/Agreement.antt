-- ===== src/ReadApi/Streams/Agreement.antt =====
-- The stream's views of dispatch events (apps/read-api/src/sse/sse-feeder.service.ts) beside the read
-- model's (apps/projection-worker/src/dispatch-projection.ts).
use flash_bite.Prelude.{ℕ, ◌≡◌, refl, none}
use flash_bite.Contracts.{
  Event, EventEnvelope, order_placed, order_accepted, order_cancelled, driver_telemetry_streamed,
  driver_offered, dispatch_accepted, order_picked_up, order_delivered, other,
}
use flash_bite.Projection.{payload_order_id}
use flash_bite.Projection.Dispatches.{dispatch_set, written_dispatch}
use flash_bite.ReadApi.Streams.{to_dispatch_view}

module _ (n : ℕ) (e : EventEnvelope) where
  agree :
      (ev : Event)
      → e.event ≡ ev
      → to_dispatch_view n e ≡ written_dispatch e (dispatch_set n e.occurred_at ev) none
  unfolding to_dispatch_view written_dispatch dispatch_set payload_order_id
  agree (order_placed p) h = rw (h, to_dispatch_view, payload_order_id) refl
  agree (order_accepted p) h = rw (h, to_dispatch_view, payload_order_id) refl
  agree (order_cancelled p) h = rw (h, to_dispatch_view, payload_order_id) refl
  agree (driver_telemetry_streamed p) h = rw (h, to_dispatch_view, payload_order_id) refl
  agree (driver_offered p) h = rw (h, to_dispatch_view, payload_order_id) refl
  agree (dispatch_accepted p) h = rw (h, to_dispatch_view, payload_order_id) refl
  agree (order_picked_up p) h = rw (h, to_dispatch_view, payload_order_id) refl
  agree (order_delivered p) h = rw (h, to_dispatch_view, payload_order_id) refl
  agree (Event.dispatch_failed p) h = rw (h, to_dispatch_view, payload_order_id) refl
  agree (other name id) h = rw (h, to_dispatch_view, payload_order_id) refl

  -- What the stream sends of an event is what the projection writes of it where no document is.
  pub to_dispatch_view-written_dispatch :
      to_dispatch_view n e ≡ written_dispatch e (dispatch_set n e.occurred_at e.event) none
  to_dispatch_view-written_dispatch = agree e.event refl
