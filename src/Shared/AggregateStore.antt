-- ===== src/Shared/AggregateStore.antt =====
-- packages/shared/src/aggregate-store.ts, envelope.ts and tenant-transaction.ts: loading an aggregate
-- and appending one event to it under an expected version.
-- The policy of the row-level security migration stands in `visible`, for the rows that are read; for
-- those that are written it is a law of `EventDb`.
pub mod Streams
pub mod Appending
pub mod Races
pub mod Legal
pub mod Interleaving
use flash_bite.Prelude.{
  ℕ, ◌+◌, String, ◌<>◌, List, [], ◌∷◌, Option, none, some, Result, ok, throw, concurrency, error,
  or_else, ◌==◌, if◌then◌else◌,
}
use flash_bite.Contracts.{AggregateType, Event, EventEnvelope, Topic}
use flash_bite.Contracts.Keys.{scoped_id}
use flash_bite.Shared.EventDb.{
  EventDb, EventRow, OutboxRow, OutboxStatus, Write, written, unique_violation, denied,
}

-- What `buildEnvelope` takes from its environment: `randomUUID()` twice, the clock, and the
-- correlation id of the request's context, if there is one.
pub record Fresh : Type 0 where
  pub event_id : String
  pub now : ℕ
  pub inserted_at : ℕ
  pub context_correlation_id : Option String
  pub new_correlation_id : String

unfoldable pub build_envelope : Fresh → String → ℕ → Option String → Event → EventEnvelope
build_envelope env tenant_id version correlation_id event = record {
  tenant_id = tenant_id;
  event_id = env.event_id;
  version = version;
  occurred_at = env.now;
  correlation_id =
      or_else correlation_id (or_else env.context_correlation_id env.new_correlation_id);
  event = event;
}

pub record LoadedAggregate {ℓ} (S : Type ℓ) : Type ℓ where
  pub state : S
  pub version : ℕ

pub record AppendArgs : Type 0 where
  pub tenant_id : String
  pub aggregate_type : AggregateType
  pub aggregate_id : String
  pub expected_version : ℕ
  pub event : Event
  pub topic : Option Topic
  pub correlation_id : Option String

module _ {ℓ} {S : Type ℓ} (fold : S → Event → S) where
  -- the loop of `loadAggregate`
  unfoldable pub replay : LoadedAggregate S → List EventRow → LoadedAggregate S
  replay loaded [] = loaded
  replay loaded (r ∷ rows) =
      replay (record { state = fold loaded.state r.event; version = r.version }) rows

-- `inserted_at` is the database's default of `occurredAt`, `now()`.
abbrev pub event_row : ℕ → AppendArgs → EventEnvelope → EventRow
event_row inserted_at args envelope = record {
  id = envelope.event_id;
  tenant_id = args.tenant_id;
  aggregate_type = args.aggregate_type;
  aggregate_id = args.aggregate_id;
  version = args.expected_version + 1;
  event = args.event;
  occurred_at = inserted_at;
}

abbrev pub outbox_row : AppendArgs → EventEnvelope → OutboxRow
outbox_row args envelope = record {
  id = envelope.event_id;
  tenant_id = args.tenant_id;
  topic = or_else args.topic Topic.order_events;
  partition_key = scoped_id args.tenant_id args.aggregate_id;
  payload = envelope;
  status = OutboxStatus.pending;
}

-- `withTenantTransaction`: `fn` runs with `app.tenant_id` set. What it wrote is kept if it returns,
-- and rolled back if it throws.
unfoldable pub with_tenant_transaction {ℓ κ} :
    {Db : Type ℓ} {A : Type κ} → Db → String → (String → Db → Write (A × Db)) → Write (A × Db)
with_tenant_transaction db tenant_id fn = fn tenant_id db

-- the policy's `USING (tenant_id = current_setting('app.tenant_id'))`
unfoldable pub visible {ℓ} : {A : Type ℓ} → String → String → List A → List A
visible app tenant_id rows = if app == tenant_id then rows else []

module _ (pg : EventDb) where
  open pg use {Db, rows, create_event, create_outbox}

  -- `eventStore.findMany`, in a transaction
  unfoldable pub find_events : String → Db → String → String → List EventRow
  unfolding visible
  find_events app db tenant_id aggregate_id = visible app tenant_id (rows db tenant_id aggregate_id)

  unfoldable pub load_aggregate {ℓ} :
      {S : Type ℓ} → Db → String → String → (S → Event → S) → S → LoadedAggregate S
  unfolding replay find_events
  load_aggregate db tenant_id aggregate_id fold initial =
      replay fold (record { state = initial; version = 0 })
        (find_events tenant_id db tenant_id aggregate_id)

  -- the body of the transaction
  unfoldable pub append_rows :
      ℕ → AppendArgs → EventEnvelope → String → Db → Write (EventEnvelope × Db)
  append_rows inserted_at args envelope app db =
      elim (create_event app db (event_row inserted_at args envelope)) [
        | unique_violation ↦ unique_violation
        | denied ↦ denied
        | written db' ↦ elim (create_outbox app db' (outbox_row args envelope)) [
          | unique_violation ↦ unique_violation
          | denied ↦ denied
          | written db'' ↦ written (envelope, db'')
        ]
      ]

  -- A P2002 of either `create` becomes a `ConcurrencyError`, and leaves the tables as they were.
  unfoldable pub append_with_expected_version : Fresh → AppendArgs → Db → Result EventEnvelope × Db
  unfolding append_rows with_tenant_transaction build_envelope
  append_with_expected_version env args db =
      let version = args.expected_version + 1 in
      let envelope = build_envelope env args.tenant_id version args.correlation_id args.event in
      elim (with_tenant_transaction db args.tenant_id (append_rows env.inserted_at args envelope)) [
        | unique_violation ↦ (throw (concurrency args.aggregate_id version), db)
        | denied ↦ (throw (error "row-level security"), db)
        | written (e, db') ↦ (ok e, db')
      ]
