-- ===== src/SagaWorker/Activities.antt =====
-- apps/saga-worker/src/activities.ts: the activities that write to the order's stream.
use flash_bite.Prelude.{◌≡◌, refl, Exn, String, Option, none, Result, ok, throw, invalid_transition}
use flash_bite.Contracts.{AggregateType, order_accepted, order_cancelled}
use flash_bite.Shared.EventDb.{EventDb}
use flash_bite.Shared.OrderAggregate.{fold_order, initial_order_state, accept, cancel}
use flash_bite.Shared.AggregateStore.{Fresh, load_aggregate, append_with_expected_version}

-- `await append(...)` with its envelope dropped
abbrev pub ignore {ℓ κ} : {A : Type ℓ} {Db : Type κ} → Result A × Db → Result (Unit {0}) × Db
ignore (ok _, db) = (ok tt, db)
ignore (throw e, db) = (throw e, db)

-- `try { payload = command } catch (e) { if (e instanceof InvalidTransitionError) return; throw e; }`
-- and then the append
abbrev pub settle {ℓ κ} :
    {A : Type ℓ} {Db : Type κ}
    → Result A
    → (A → Result (Unit {0}) × Db)
    → Db
    → Result (Unit {0}) × Db
settle (ok payload) go db = go payload
settle (throw (invalid_transition _)) go db = (ok tt, db)
settle (throw e) go db = (throw e, db)

-- neither changes the database
pub db-ignore {ℓ κ} : {A : Type ℓ} {Db : Type κ} (r : Result A × Db) → (ignore r).1 ≡ r.1
db-ignore (ok _, db) = refl
db-ignore (throw _, db) = refl

pub db-settle_threw {ℓ κ} :
    {A : Type ℓ} {Db : Type κ} (x : Exn) (go : A → Result (Unit {0}) × Db) (db : Db)
    → (settle (throw x) go db).1 ≡ db
db-settle_threw (invalid_transition _) go db = refl
db-settle_threw _ go db = refl

module _ (pg : EventDb) where
  open pg use {Db}

  unfoldable pub record_order_accepted :
      Fresh → String → String → Option String → Db → Result (Unit {0}) × Db
  record_order_accepted env tenant_id order_id correlation_id db =
      let loaded = load_aggregate pg db tenant_id order_id fold_order initial_order_state in
      settle (accept loaded.state order_id)
        (λ payload. ignore (
          append_with_expected_version pg env
            (record {
              tenant_id = tenant_id;
              aggregate_type = AggregateType.order;
              aggregate_id = order_id;
              expected_version = loaded.version;
              event = order_accepted payload;
              topic = none;
              correlation_id = correlation_id;
            })
            db))
        db

  unfoldable pub record_order_cancelled :
      Fresh → String → String → String → Option String → Db → Result (Unit {0}) × Db
  record_order_cancelled env tenant_id order_id reason correlation_id db =
      let loaded = load_aggregate pg db tenant_id order_id fold_order initial_order_state in
      settle (cancel loaded.state order_id reason)
        (λ payload. ignore (
          append_with_expected_version pg env
            (record {
              tenant_id = tenant_id;
              aggregate_type = AggregateType.order;
              aggregate_id = order_id;
              expected_version = loaded.version;
              event = order_cancelled payload;
              topic = none;
              correlation_id = correlation_id;
            })
            db))
        db
