-- ===== src/Projection/Replay.antt =====
-- What the stored events of an order (apps/projection-worker/src/rebuild.ts) make of its view;
-- `correlation_id` stands for `newCorrelationId()`.
use flash_bite.Prelude.{
  ℕ, ◌+◌, String, ◌≡◌, refl, List, [], true, ltb, ◌∷◌, Option, none, some, arith,
}
use flash_bite.Contracts.{EventEnvelope, OrderView, OrderStatus, Event}
use flash_bite.Stores.{KeyedStore}
use flash_bite.Shared.EventDb.{EventRow}
use flash_bite.Shared.OrderAggregate.{
  OrderState, initial_order_state, fold_order, place, accept, cancel,
}
use flash_bite.Shared.OrderAggregate.Lifecycle.{OrderCommand}
use flash_bite.Projection.{view_key}
use flash_bite.Projection.Orders.{placed_view, resolved_view, written_order, project_order}

abbrev pub envelope_of_row : String → EventRow → EventEnvelope
envelope_of_row correlation_id r = record {
  tenant_id = r.tenant_id;
  event_id = r.id;
  version = r.version;
  occurred_at = r.occurred_at;
  correlation_id = correlation_id;
  event = r.event;
}

-- The view of an order shows the state and the version of its aggregate.
abbrev pub Shows : OrderState → ℕ → Option OrderView → Type 0
Shows s n none = (s ≡ initial_order_state) × (n ≡ 0)
Shows s n (some v) =
    (s.status ≡ some v.status)
    × (s.customer_id ≡ some v.customer_id)
    × (s.items ≡ some v.items)
    × (s.total_amount ≡ some v.total_amount)
    × (s.cancel_reason ≡ v.cancel_reason)
    × (n ≡ v.version)

newer : (v n m : ℕ) → n ≡ v → m ≡ n + 1 → ltb v m ≡ true
newer v n m h e = ground arith

-- One command's event, from an order as its view shows it: it is written, and the new view shows
-- the new state.
written-Shows :
    (e : EventEnvelope) (s : OrderState) (n : ℕ) (o : Option OrderView) (ev : Event)
    → Shows s n o
    → OrderCommand s ev
    → e.version ≡ n + 1
    → (v : OrderView) × (written_order e ev o ≡ some v) × Shows (fold_order s ev) e.version (some v)
unfolding written_order fold_order place accept cancel
written-Shows e s n none ev h (OrderCommand.placing cmd p c q) eq =
    rw q (placed_view e p none, refl, (refl, refl, refl, refl, refl, refl))
written-Shows e s n none ev h (OrderCommand.accepting id p c q) eq = ground (arith, h, c)
written-Shows e s n none ev h (OrderCommand.cancelling id reason p c q) eq = ground (arith, h, c)
written-Shows e s n (some v) ev h (OrderCommand.placing cmd p c q) eq = ground (arith, h.0, c)
written-Shows e s n (some v) ev h (OrderCommand.accepting id p c q) eq = rw q (
  resolved_view e OrderStatus.accepted v.cancel_reason v,
  rw (newer v.version n e.version h.5 eq) refl,
  (refl, h.1, h.2, h.3, h.4, refl),
)
written-Shows e s n (some v) ev h (OrderCommand.cancelling id reason p c q) eq = rw q (
  resolved_view e OrderStatus.cancelled (some p.reason) v,
  rw (newer v.version n e.version h.5 eq) refl,
  (refl, h.1, h.2, h.3, refl, refl),
)

module _ (orders : KeyedStore String OrderView) (c : String) where
  -- Each row by the projection of orders, the inbox aside.
  unfoldable pub replay_orders : List EventRow → orders.Db → orders.Db
  unfolding project_order
  replay_orders [] db = db
  replay_orders (r ∷ rows) db = replay_orders rows (project_order orders (envelope_of_row c r) db)

  pub project-Shows :
      (k : String) (s : OrderState) (n : ℕ) (r : EventRow) (db : orders.Db)
      → Shows s n (orders.find db k)
      → OrderCommand s r.event
      → r.version ≡ n + 1
      → view_key (envelope_of_row c r) ≡ k
      → Shows
          (fold_order s r.event)
          r.version
          (orders.find (project_order orders (envelope_of_row c r) db) k)
  unfolding project_order
  project-Shows k s n r db h command v here =
      let e = envelope_of_row c r in
      let (view, write, shows) =
        written-Shows e s n (orders.find db (view_key e)) r.event (rw here h) command v in
      rw (write, project_order)
        (rw (orders.find-put, (orders.same_iff (view_key e) k).1 here) shows)
