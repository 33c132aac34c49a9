-- ===== src/SagaWorker/DispatchActivities.antt =====
-- apps/saga-worker/src/dispatch-activities.ts: the appends to the dispatch stream.
pub mod Runs
use flash_bite.Prelude.{String, Option, some, Result, ok, throw}
use flash_bite.Contracts.{
  AggregateType, Event, driver_offered, dispatch_accepted, order_picked_up, order_delivered, Topic,
}
use flash_bite.Contracts.Keys.{dispatch_aggregate_id}
use flash_bite.Shared.EventDb.{EventDb}
use flash_bite.Shared.DispatchAggregate.{
  DispatchState, fold_dispatch, initial_dispatch_state, offer, accept_offer, pickup, deliver, fail,
}
use flash_bite.Shared.AggregateStore.{Fresh, load_aggregate, append_with_expected_version}
use flash_bite.SagaWorker.Activities.{ignore, settle}

abbrev pub map_ok {ℓ κ} : {A : Type ℓ} {B : Type κ} → (A → B) → Result A → Result B
map_ok f (ok a) = ok (f a)
map_ok f (throw e) = throw e

module _ (pg : EventDb) where
  open pg use {Db}

  -- the closure `append`; `build` gives the payload together with its event type
  append :
      Fresh
      → String
      → String
      → (DispatchState → Result Event)
      → Option String
      → Db
      → Result (Unit {0}) × Db
  append env tenant_id order_id build correlation_id db =
      let aggregate_id = dispatch_aggregate_id order_id in
      let loaded =
        load_aggregate pg db tenant_id aggregate_id fold_dispatch initial_dispatch_state in
      settle (build loaded.state)
        (λ event. ignore (
          append_with_expected_version pg env
            (record {
              tenant_id = tenant_id;
              aggregate_type = AggregateType.dispatch;
              aggregate_id = aggregate_id;
              expected_version = loaded.version;
              event = event;
              topic = some Topic.dispatch_events;
              correlation_id = correlation_id;
            })
            db))
        db

  unfoldable pub record_driver_offered :
      Fresh → String → String → String → Option String → Db → Result (Unit {0}) × Db
  unfolding append
  record_driver_offered env tenant_id order_id driver_id =
      append env tenant_id order_id (λ s. map_ok driver_offered (offer s order_id driver_id))

  unfoldable pub record_dispatch_accepted :
      Fresh → String → String → String → Option String → Db → Result (Unit {0}) × Db
  unfolding append
  record_dispatch_accepted env tenant_id order_id driver_id =
      append env tenant_id order_id
        (λ s. map_ok dispatch_accepted (accept_offer s order_id driver_id))

  unfoldable pub record_order_picked_up :
      Fresh → String → String → Option String → Db → Result (Unit {0}) × Db
  unfolding append
  record_order_picked_up env tenant_id order_id =
      append env tenant_id order_id (λ s. map_ok order_picked_up (pickup s order_id))

  unfoldable pub record_order_delivered :
      Fresh → String → String → Option String → Db → Result (Unit {0}) × Db
  unfolding append
  record_order_delivered env tenant_id order_id =
      append env tenant_id order_id (λ s. map_ok order_delivered (deliver s order_id))

  unfoldable pub record_dispatch_failed :
      Fresh → String → String → String → Option String → Db → Result (Unit {0}) × Db
  unfolding append
  record_dispatch_failed env tenant_id order_id reason =
      append env tenant_id order_id (λ s. map_ok Event.dispatch_failed (fail s order_id reason))
