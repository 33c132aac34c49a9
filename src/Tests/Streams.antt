-- ===== src/Tests/Streams.antt =====
-- An order that is placed: the theorems on streams, and on their projection, applied to it.
use mathlib.Core.List.{Memᴰ}
use flash_bite.Prelude.{
  ℕ, String, ◌≡◌, refl, List, [], ◌∷◌, none, some, ok, throw, concurrency, ◌==◌, eq_iff, ◌⊎◌,
}
use flash_bite.Contracts.{
  OrderPlacedPayload, order_placed, AggregateType, OrderView, DispatchView, driver_offered,
  DriverOfferedPayload, Topic,
}
use flash_bite.Stores.{KeyedStore, association_list, find_entry}
use flash_bite.Shared.EventDb.{EventRow}
use flash_bite.Shared.AggregateStore.{
  Fresh, AppendArgs, load_aggregate, append_with_expected_version, replay, find_events, visible,
  with_tenant_transaction, build_envelope, append_rows,
}
use flash_bite.Shared.AggregateStore.Streams.{IsContiguous}
use flash_bite.Shared.AggregateStore.Appending.{envelope_of, IsAppended}
use flash_bite.Shared.AggregateStore.Races.{after_append, append_race, append_atomic, Refused}
use flash_bite.Shared.AggregateStore.Legal.{IsLegal}
use flash_bite.Shared.AggregateStore.Interleaving.{
  World, Pending, Reach, load, commit, here, next, interleaving_safe,
}
use flash_bite.Shared.OrderAggregate.{fold_order, initial_order_state, place}
use flash_bite.Shared.OrderAggregate.Lifecycle.{
  OrderCommand, placing, OrderLife, events_of, order_lifecycle,
}
use flash_bite.Shared.DispatchAggregate.{fold_dispatch, initial_dispatch_state, offer}
use flash_bite.Shared.DispatchAggregate.Lifecycle.{
  DispatchCommand, offering, Offering, dispatch_lifecycle,
}
use flash_bite.Projection.{ProcessedEvent, payload_order_id, inbox_id}
use flash_bite.Projection.Replay.{Shows}
use flash_bite.Projection.Rebuild.{Clearing, ReadModel, OwnIds, rebuild_projection}
use flash_bite.Projection.Rebuild.Loaded.{of_order, rebuild_projection-load}
use flash_bite.WriteApi.Orders.{place_order}
use flash_bite.WriteApi.Orders.Runs.{order_writers-Reach, Runs}
use flash_bite.SagaWorker.Activities.{record_order_accepted, record_order_cancelled}
use flash_bite.SagaWorker.DispatchActivities.Runs.{
  offered, record_dispatch, RunsDispatch, record_dispatch-Reach,
}
use flash_bite.Tests.Tables.{Tables, lists}

abbrev pub empty : Tables
empty = record { events = []; outbox = [] }

abbrev pub draw : String → Fresh
draw id = record {
  event_id = id;
  now = 1000;
  inserted_at = 1001;
  context_correlation_id = none;
  new_correlation_id = "correlation";
}

abbrev pub order_1 : OrderPlacedPayload
order_1 = record {
  order_id = "order-1";
  customer_id = "customer-1";
  items = record { sku = "soup"; qty = 2; price = 450 } ∷ [];
  total_amount = 900;
}

abbrev nothing : World lists
nothing = record { db = empty; pending = [] }

abbrev loaded_version : ℕ
loaded_version =
    (load_aggregate lists empty "berlin" "order-1" fold_order initial_order_state).version

abbrev placing_order : Pending
placing_order = record { version = loaded_version; event = order_placed order_1 }

abbrev place_args : AppendArgs
place_args = record {
  tenant_id = "berlin";
  aggregate_type = AggregateType.order;
  aggregate_id = "order-1";
  expected_version = loaded_version;
  event = order_placed order_1;
  topic = none;
  correlation_id = none;
}

abbrev order_placed_once : World lists
order_placed_once = record {
  db = after_append lists (draw "event-1") place_args empty;
  pending = placing_order ∷ [];
}

can_place :
    OrderCommand
      (load_aggregate lists empty "berlin" "order-1" fold_order initial_order_state).state
      (order_placed order_1)
unfolding load_aggregate replay find_events visible place
can_place = placing order_1 order_1 refl refl

placed_reach :
    Reach lists fold_order initial_order_state OrderCommand "berlin" "order-1" nothing
      order_placed_once
placed_reach =
    next (next here (load (order_placed order_1) can_place refl))
      (commit (draw "event-1") place_args placing_order (Memᴰ.head refl) refl refl refl refl refl)

interleaving_safe_example :
    IsContiguous 0 (lists.rows order_placed_once.db "berlin" "order-1")
    × IsLegal fold_order OrderCommand initial_order_state
        (lists.rows order_placed_once.db "berlin" "order-1")
interleaving_safe_example =
    interleaving_safe lists fold_order initial_order_state OrderCommand "berlin" "order-1" nothing
      order_placed_once refl refl placed_reach

order_lifecycle_example : OrderLife (events_of (lists.rows order_placed_once.db "berlin" "order-1"))
order_lifecycle_example =
    order_lifecycle lists "berlin" "order-1" nothing order_placed_once refl refl placed_reach

abbrev orders : KeyedStore String OrderView
orders = association_list String OrderView ◌==◌ eq_iff

abbrev dispatches : KeyedStore String DispatchView
dispatches = association_list String DispatchView ◌==◌ eq_iff

abbrev processed : KeyedStore String ProcessedEvent
processed = association_list String ProcessedEvent ◌==◌ eq_iff

empties : (V : Type 0) → Clearing V (association_list String V ◌==◌ eq_iff)
unfolding find_entry
empties V = record { delete_many = λ db. []; find-delete_many = λ db k. refl }

-- A stored row of another tenant's order, before those of the order
abbrev elsewhere : EventRow
elsewhere = record {
  id = "event-0";
  tenant_id = "amsterdam";
  aggregate_id = "order-1";
  aggregate_type = AggregateType.order;
  version = 1;
  occurred_at = 0;
  event = order_placed order_1;
}

abbrev all_rows : List EventRow
all_rows = elsewhere ∷ lists.rows order_placed_once.db "berlin" "order-1"

-- A read model whose inbox has the events already
abbrev used_model : ReadModel orders dispatches processed "c"
used_model = record {
  orders_db = [];
  dispatches_db = [];
  processed_db =
      (
        "berlin:projection-worker:event-1",
        record { tenant_id = "berlin"; consumer = "projection-worker"; event_id = "event-1" },
      )
      ∷ [];
}

stored_of_order :
    of_order "berlin:order-1" all_rows ≡ lists.rows order_placed_once.db "berlin" "order-1"
unfolding append_with_expected_version append_rows with_tenant_transaction build_envelope
    load_aggregate replay find_events visible payload_order_id
stored_of_order = refl

own_ids : OwnIds orders dispatches processed "c" all_rows
unfolding append_with_expected_version append_rows with_tenant_transaction build_envelope
    load_aggregate replay find_events visible inbox_id
own_ids = ((refl, tt), (tt, tt))

rebuild_projection-load_example :
    let loaded =
      load_aggregate lists order_placed_once.db "berlin" "order-1" fold_order initial_order_state in
    let rebuilt =
      rebuild_projection orders dispatches processed "c"
        (empties OrderView)
        (empties DispatchView)
        (empties ProcessedEvent)
        all_rows
        used_model in
    Shows loaded.state loaded.version (orders.find rebuilt.1.orders_db "berlin:order-1")
rebuild_projection-load_example =
    rebuild_projection-load orders dispatches processed "c" (empties OrderView)
      (empties DispatchView) (empties ProcessedEvent) lists "berlin" "order-1" "berlin:order-1"
      nothing order_placed_once all_rows used_model refl refl placed_reach stored_of_order own_ids

abbrev first_args : AppendArgs
first_args = record place_args { expected_version = 0 }

abbrev later_args : AppendArgs
later_args = record first_args { correlation_id = some "other" }

append_race_example :
    let first = append_with_expected_version lists (draw "event-1") first_args empty in
    (first.0 ≡ ok (envelope_of (draw "event-1") first_args))
    × (append_with_expected_version lists (draw "event-2") later_args first.1
        ≡ (throw (concurrency "order-1" 1), first.1))
append_race_example =
    append_race lists (draw "event-1") (draw "event-2") first_args later_args empty tt refl refl
      refl refl (record { event_id_free = refl; outbox_id_free = refl })

append_atomic_example :
    Refused lists (draw "event-1") first_args empty
    ⊎ IsAppended lists
        (draw "event-1")
        first_args
        empty
        (after_append lists (draw "event-1") first_args empty)
append_atomic_example = append_atomic lists (draw "event-1") first_args empty tt refl

abbrev dispatch_nothing : World lists
dispatch_nothing = record { db = empty; pending = [] }

abbrev offer_1 : DriverOfferedPayload
offer_1 = record { order_id = "order-1"; driver_id = "driver-1" }

abbrev offering_driver : Pending
offering_driver = record {
  version =
      (load_aggregate lists empty "berlin" "dispatch:order-1" fold_dispatch
        initial_dispatch_state).version;
  event = driver_offered offer_1;
}

abbrev offer_args : AppendArgs
offer_args = record {
  tenant_id = "berlin";
  aggregate_type = AggregateType.dispatch;
  aggregate_id = "dispatch:order-1";
  expected_version = offering_driver.version;
  event = driver_offered offer_1;
  topic = some Topic.dispatch_events;
  correlation_id = none;
}

can_offer :
    DispatchCommand
      (load_aggregate lists empty "berlin" "dispatch:order-1" fold_dispatch
        initial_dispatch_state).state
      (driver_offered offer_1)
unfolding load_aggregate replay find_events visible offer
can_offer = offering "order-1" "driver-1" offer_1 refl refl

abbrev driver_offered_once : World lists
driver_offered_once = record {
  db = after_append lists (draw "event-1") offer_args empty;
  pending = offering_driver ∷ [];
}

dispatch_lifecycle_example :
    Offering none (events_of (lists.rows driver_offered_once.db "berlin" "dispatch:order-1"))
dispatch_lifecycle_example =
    dispatch_lifecycle lists "berlin" "dispatch:order-1" dispatch_nothing driver_offered_once refl
      refl
      (next (next here (load (driver_offered offer_1) can_offer refl)) (
        commit (draw "event-1") offer_args offering_driver (Memᴰ.head refl) refl refl refl refl
          refl))

record_dispatch-Reach_example :
    RunsDispatch lists "berlin" "order-1" empty []
      (record_dispatch lists "berlin" "order-1" (offered "driver-1") (draw "event-1") none empty).1
record_dispatch-Reach_example =
    record_dispatch-Reach lists "berlin" "order-1" (draw "event-1") none empty []
      (offered "driver-1")

order_writers-Reach_example :
    Runs lists "berlin" "order-1" empty []
      (place_order lists (draw "event-1") "berlin" order_1 empty).1
    × Runs lists "berlin" "order-1" empty []
        (record_order_accepted lists (draw "event-1") "berlin" "order-1" none empty).1
    × Runs lists "berlin" "order-1" empty []
        (record_order_cancelled lists (draw "event-1") "berlin" "order-1" "DECLINED" none empty).1
order_writers-Reach_example =
    order_writers-Reach lists "berlin" (draw "event-1") order_1 none "DECLINED" empty []
