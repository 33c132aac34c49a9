-- ===== src/WriteApi/Orders/Runs.antt =====
-- The writers of an order's stream (orders.service.ts, activities.ts), as loads and appends.
use mathlib.Core.List.{Memᴰ}
use flash_bite.Prelude.{
  String, ◌≡◌, refl, List, ◌∷◌, Option, none, Result, ok, throw, Exn, inl, inr, Option-cases,
  Result-cases,
}
use flash_bite.Contracts.{
  AggregateType, OrderPlacedPayload, Event, EventEnvelope, order_placed, order_accepted,
  order_cancelled,
}
use flash_bite.Shared.EventDb.{EventDb}
use flash_bite.Shared.OrderAggregate.{
  OrderState, fold_order, initial_order_state, place, accept, cancel,
}
use flash_bite.Shared.OrderAggregate.Lifecycle.{OrderCommand, placing, accepting, cancelling}
use flash_bite.Shared.AggregateStore.{Fresh, AppendArgs, LoadedAggregate, load_aggregate}
use flash_bite.Shared.AggregateStore.Races.{after_append}
use flash_bite.Shared.AggregateStore.Interleaving.{Pending, World, Reach, load, commit, here, next}
use flash_bite.SagaWorker.Activities.{
  db-ignore, db-settle_threw, record_order_accepted, record_order_cancelled,
}
use flash_bite.WriteApi.Orders.{placed, place_order}

module _ (pg : EventDb) (t a : String) where
  open pg use {Db}

  abbrev pub loaded_order : Db → LoadedAggregate OrderState
  loaded_order db = load_aggregate pg db t a fold_order initial_order_state

  abbrev order_args : AppendArgs → Db → Event → AppendArgs
  order_args args db e = record args {
    tenant_id = t;
    aggregate_id = a;
    expected_version = (loaded_order db).version;
    event = e;
  }

  abbrev pub ReachOrder : World pg → World pg → Type 0
  ReachOrder = Reach pg fold_order initial_order_state OrderCommand t a

  -- A load and the append that follows it at once.
  load_then_append :
      (env : Fresh) (args : AppendArgs) (e : Event) (db : Db) (ps : List Pending)
      → OrderCommand (loaded_order db).state e
      → (ps' : List Pending) × ReachOrder
          (record { db = db; pending = ps })
          (record { db = after_append pg env (order_args args db e) db; pending = ps' })
  load_then_append env args e db ps c =
      let p : Pending = record { version = (loaded_order db).version; event = e } in
      (
        p ∷ ps,
        next (next here (load e c refl))
            (commit env (order_args args db e) p (Memᴰ.head refl) refl refl refl refl refl),
      )

  abbrev pub Runs : Db → List Pending → Db → Type 0
  Runs db ps db' =
      (ps' : List Pending) × ReachOrder (record { db = db; pending = ps })
        (record { db = db'; pending = ps' })

db-placed {ℓ} : {Db : Type ℓ} (id : String) (r : Result EventEnvelope × Db) → (placed id r).1 ≡ r.1
db-placed id (ok _, db) = refl
db-placed id (throw (Exn.concurrency _ _), db) = refl
db-placed id (throw _, db) = refl

module _ (pg : EventDb) (t a : String) (env : Fresh) (db : pg.Db) (ps : List Pending) where
  abbrev args_for : Option String → Event → AppendArgs
  args_for correlation_id e = record {
    tenant_id = t;
    aggregate_type = AggregateType.order;
    aggregate_id = a;
    expected_version = 0;
    event = e;
    topic = none;
    correlation_id = correlation_id;
  }

  -- The activity that accepts an order is a run of the steps that `order_lifecycle` is about.
  pub record_order_accepted-Reach :
      (correlation_id : Option String)
      → Runs pg t a db ps (record_order_accepted pg env t a correlation_id db).1
  unfolding record_order_accepted
  record_order_accepted-Reach correlation_id =
      elim (Result-cases (accept (loaded_order pg t a db).state a)) [
        | inr (x, e) ↦ rw (e, db-settle_threw x) (ps, here)
        | inl (p, e) ↦
            rw (e, db-ignore)
              (load_then_append pg t a env (args_for correlation_id (order_accepted p))
                (order_accepted p) db ps (accepting a p e refl))
      ]

  -- The activity that cancels an order is a run of the steps that `order_lifecycle` is about.
  pub record_order_cancelled-Reach :
      (reason : String) (correlation_id : Option String)
      → Runs pg t a db ps (record_order_cancelled pg env t a reason correlation_id db).1
  unfolding record_order_cancelled
  record_order_cancelled-Reach reason correlation_id =
      elim (Result-cases (cancel (loaded_order pg t a db).state a reason)) [
        | inr (x, e) ↦ rw (e, db-settle_threw x) (ps, here)
        | inl (p, e) ↦
            rw (e, db-ignore)
              (load_then_append pg t a env (args_for correlation_id (order_cancelled p))
                (order_cancelled p) db ps (cancelling a reason p e refl))
      ]

-- The request that places an order is a run of the steps that `order_lifecycle` is about.
pub place_order-Reach :
    (pg : EventDb) (t : String) (env : Fresh) (dto : OrderPlacedPayload) (db : pg.Db)
    (ps : List Pending)
    → Runs pg t dto.order_id db ps (place_order pg env t dto db).1
unfolding place_order
place_order-Reach pg t env dto db ps =
    elim (Option-cases (place (loaded_order pg t dto.order_id db).state dto)) [
      | inl e ↦ rw (e, place_order) (ps, here)
      | inr (p, e) ↦
          rw (e, place_order, db-placed)
            (load_then_append pg t dto.order_id env
              (args_for pg t dto.order_id env db ps none (order_placed p)) (order_placed p) db ps
              (placing dto p e refl))
    ]

-- Each of the three writers of an order, the request that places it and the activities that accept and
-- cancel it, is a run of the steps that `order_lifecycle` is about.
pub order_writers-Reach :
    (pg : EventDb) (t : String) (env : Fresh) (dto : OrderPlacedPayload)
    (correlation_id : Option String) (reason : String) (db : pg.Db) (ps : List Pending)
    → Runs pg t dto.order_id db ps (place_order pg env t dto db).1
      × Runs pg t dto.order_id db ps
          (record_order_accepted pg env t dto.order_id correlation_id db).1
      × Runs pg t dto.order_id db ps
          (record_order_cancelled pg env t dto.order_id reason correlation_id db).1
order_writers-Reach pg t env dto correlation_id reason db ps = (
  place_order-Reach pg t env dto db ps,
  record_order_accepted-Reach pg t dto.order_id env db ps correlation_id,
  record_order_cancelled-Reach pg t dto.order_id env db ps reason correlation_id,
)
