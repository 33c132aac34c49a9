-- ===== src/Shared/EventDb.antt =====
-- The Postgres tables `event_store` and `outbox`, as packages/shared and the outbox poller use them
-- through Prisma: what the code relies on is this interface. Its laws are the documented behaviour
-- of `findMany`, `create`, `update` and of the unique constraints of schema.prisma
-- (`@@unique([tenantId, aggregateId, version])` and the two primary keys).
use flash_bite.Prelude.{
  ℕ, String, ◌≡◌, Bool, true, false, ◌&&◌, ◌||◌, List, [], ◌∷◌, ◌++◌, map, ◌==◌, nat_eq, ltb,
  if◌then◌else◌,
}
use flash_bite.Contracts.{AggregateType, Event, EventEnvelope, Topic}

pub record EventRow : Type 0 where
  pub id : String
  pub tenant_id : String
  pub aggregate_type : AggregateType
  pub aggregate_id : String
  pub version : ℕ
  pub event : Event
  pub occurred_at : ℕ

pub data OutboxStatus : Type 0 where
  pending sent : OutboxStatus

pub record OutboxRow : Type 0 where
  pub id : String
  pub tenant_id : String
  pub topic : Topic
  pub partition_key : String
  pub payload : EventEnvelope
  pub status : OutboxStatus

-- `orderBy: { version: "asc" }`: where a new row comes to stand among the rows of its aggregate.
abbrev pub insert_by_version : EventRow → List EventRow → List EventRow
insert_by_version row [] = row ∷ []
insert_by_version row (r ∷ rs) =
    let rest = insert_by_version row rs in
    if ltb row.version r.version then row ∷ r ∷ rs else r ∷ rest

abbrev pub version_taken : ℕ → List EventRow → Bool
version_taken v [] = false
version_taken v (r ∷ rs) = nat_eq r.version v || version_taken v rs

abbrev pub set_status : String → OutboxStatus → OutboxRow → OutboxRow
set_status id status row = if row.id == id then record row { status = status } else row

-- An insertion is done, raises P2002 (a unique constraint), or raises another error: the row is
-- none of those that the row-level security policy admits.
pub data Write {ℓ} (A : Type ℓ) : Type ℓ where
  written : A → Write A
  unique_violation denied : Write A

pub data WriteStatus : Type 0 where
  done unique refused : WriteStatus

abbrev pub write_status {ℓ} : {A : Type ℓ} → Write A → WriteStatus
write_status (written _) = done
write_status unique_violation = unique
write_status denied = refused

-- What becomes of an insertion, by whether the policy admits the row and a unique value is taken.
abbrev pub insertion : Bool → Bool → WriteStatus
insertion false _ = refused
insertion true false = done
insertion true true = unique

-- `rows db t a` is what the table holds for one aggregate, `outbox db` all outbox rows, oldest
-- first. The creates take the transaction's `app.tenant_id`. `event_id_taken` and `outbox_id_taken`
-- say whether a primary key is in use.
pub record EventDb : Type 1 where
  pub Db : Type 0
  pub rows : Db → String → String → List EventRow
  pub outbox : Db → List OutboxRow
  pub event_id_taken : Db → String → Bool
  pub outbox_id_taken : Db → String → Bool
  pub create_event : String → Db → EventRow → Write Db
  pub create_outbox : String → Db → OutboxRow → Write Db
  pub update_outbox : Db → String → OutboxStatus → Db
  pub write_status-create_event :
      (app : String) (db : Db) (row : EventRow)
      → write_status (create_event app db row)
        ≡ insertion (app == row.tenant_id) (
            event_id_taken db row.id
            || version_taken row.version (rows db row.tenant_id row.aggregate_id))
  pub rows-create_event :
      (app : String) (db db' : Db) (row : EventRow) (t a : String)
      → create_event app db row ≡ written db'
      → rows db' t a ≡ (
          if row.tenant_id == t && row.aggregate_id == a
          then insert_by_version row (rows db t a)
          else rows db t a)
  pub outbox-create_event :
      (app : String) (db db' : Db) (row : EventRow)
      → create_event app db row ≡ written db'
      → outbox db' ≡ outbox db
  pub outbox_id_taken-create_event :
      (app : String) (db db' : Db) (row : EventRow) (id : String)
      → create_event app db row ≡ written db'
      → outbox_id_taken db' id ≡ outbox_id_taken db id
  pub write_status-create_outbox :
      (app : String) (db : Db) (row : OutboxRow)
      → write_status (create_outbox app db row)
        ≡ insertion (app == row.tenant_id) (outbox_id_taken db row.id)
  pub rows-create_outbox :
      (app : String) (db db' : Db) (row : OutboxRow) (t a : String)
      → create_outbox app db row ≡ written db'
      → rows db' t a ≡ rows db t a
  pub outbox-create_outbox :
      (app : String) (db db' : Db) (row : OutboxRow)
      → create_outbox app db row ≡ written db'
      → outbox db' ≡ outbox db ++ row ∷ []
  pub outbox-update_outbox :
      (db : Db) (id : String) (status : OutboxStatus)
      → outbox (update_outbox db id status) ≡ map (set_status id status) (outbox db)
  pub rows-update_outbox :
      (db : Db) (id : String) (status : OutboxStatus) (t a : String)
      → rows (update_outbox db id status) t a ≡ rows db t a
