-- ===== src/Shared/AggregateStore/Appending.antt =====
-- One append through aggregate-store.ts, by a current writer and by a stale one.
use flash_bite.Prelude.{
  ◌+◌, ◌<◌, String, ◌≡◌, refl, true, false, List, [], ◌∷◌, ◌++◌, length, ok, throw, concurrency,
  arith, ◌==◌, eq_refl, ◌&&◌, ap, ◌∙◌,
}
use flash_bite.Contracts.{Event, EventEnvelope}
use flash_bite.Shared.EventDb.{
  EventDb, EventRow, Write, written, unique_violation, denied, write_status, done, unique,
  version_taken,
}
use flash_bite.Shared.AggregateStore.{
  Fresh, AppendArgs, build_envelope, event_row, outbox_row, load_aggregate,
  append_with_expected_version,
}
use flash_bite.Shared.AggregateStore.Streams.{
  IsContiguous, version_taken-IsContiguous, insert_by_version-IsContiguous, version-replay,
}

written_of_done {ℓ} : {A : Type ℓ} (w : Write A) → write_status w ≡ done → (a : A) × (w ≡ written a)
written_of_done (written a) h = (a, refl)
written_of_done unique_violation h = cc
written_of_done denied h = cc

violation_of_unique {ℓ} :
    {A : Type ℓ} (w : Write A) → write_status w ≡ unique → w ≡ unique_violation
violation_of_unique (written a) h = cc
violation_of_unique unique_violation h = refl
violation_of_unique denied h = cc

-- the envelope that `append_with_expected_version` writes
abbrev pub envelope_of : Fresh → AppendArgs → EventEnvelope
envelope_of env args =
    build_envelope env args.tenant_id (args.expected_version + 1) args.correlation_id args.event

module _ (pg : EventDb) where
  open pg use {Db, rows, outbox, event_id_taken, outbox_id_taken, create_event, create_outbox}

  abbrev pub stream : Db → AppendArgs → List EventRow
  stream db args = rows db args.tenant_id args.aggregate_id

  -- `randomUUID()` gave an id that no row has.
  pub record IsFresh (db : Db) (env : Fresh) : Type 0 where
    pub event_id_free : event_id_taken db env.event_id ≡ false
    pub outbox_id_free : outbox_id_taken db env.event_id ≡ false

  -- One row more in the stream and one more in the outbox, and nothing else.
  pub record IsAppended (env : Fresh) (args : AppendArgs) (db db' : Db) : Type 0 where
    pub returns : append_with_expected_version pg env args db ≡ (ok (envelope_of env args), db')
    pub appended :
        rows db' args.tenant_id args.aggregate_id
        ≡ stream db args ++ event_row env.inserted_at args (envelope_of env args) ∷ []
    pub others_kept :
        (t a : String)
        → (args.tenant_id == t && args.aggregate_id == a) ≡ false
        → rows db' t a ≡ rows db t a
    pub queued : outbox db' ≡ outbox db ++ outbox_row args (envelope_of env args) ∷ []

  create_event_done :
      (env : Fresh) (args : AppendArgs) (db : Db)
      → IsContiguous 0 (stream db args)
      → args.expected_version ≡ length (stream db args)
      → event_id_taken db env.event_id ≡ false
      → (db' : Db) × (create_event args.tenant_id db
            (event_row env.inserted_at args (envelope_of env args))
          ≡ written db')
  unfolding build_envelope
  create_event_done env args db c e free = written_of_done _ (
      rw
        (
          pg.write_status-create_event,
          eq_refl,
          free,
          version_taken-IsContiguous (args.expected_version + 1) 0 (stream db args) c,
        )
        (ground (arith)))

  create_outbox_done :
      (env : Fresh) (args : AppendArgs) (db : Db)
      → outbox_id_taken db env.event_id ≡ false
      → (db' : Db) × (create_outbox args.tenant_id db (outbox_row args (envelope_of env args))
          ≡ written db')
  unfolding build_envelope
  create_outbox_done env args db free =
      written_of_done _ (rw (pg.write_status-create_outbox, eq_refl, free) refl)

  returns_of_written :
      (env : Fresh) (args : AppendArgs) (db db1 db2 : Db)
      → create_event args.tenant_id db (event_row env.inserted_at args (envelope_of env args))
        ≡ written db1
      → create_outbox args.tenant_id db1 (outbox_row args (envelope_of env args)) ≡ written db2
      → append_with_expected_version pg env args db ≡ (ok (envelope_of env args), db2)
  unfolding append_with_expected_version
  returns_of_written env args db db1 db2 e1 e2 = ground (arith, e1, e2)

  pub IsAppended-of_written :
      (env : Fresh) (args : AppendArgs) (db db1 db2 : Db)
      → IsContiguous 0 (stream db args)
      → args.expected_version ≡ length (stream db args)
      → create_event args.tenant_id db (event_row env.inserted_at args (envelope_of env args))
        ≡ written db1
      → create_outbox args.tenant_id db1 (outbox_row args (envelope_of env args)) ≡ written db2
      → IsAppended env args db db2
  IsAppended-of_written env args db db1 db2 c e e1 e2 =
      let row = event_row env.inserted_at args (envelope_of env args) in
      let orow = outbox_row args (envelope_of env args) in
      let t = args.tenant_id in
      let a = args.aggregate_id in
      record {
        returns = returns_of_written env args db db1 db2 e1 e2;
        appended =
            pg.rows-create_outbox t db1 db2 orow t a e2
            ∙ pg.rows-create_event t db db1 row t a e1
            ∙ rw (eq_refl t, eq_refl a)
                (insert_by_version-IsContiguous row 0 (stream db args) c (omega arith));
        others_kept = λ t' a' ne.
            pg.rows-create_outbox t db1 db2 orow t' a' e2
            ∙ pg.rows-create_event t db db1 row t' a' e1
            ∙ rw ne refl;
        queued =
            pg.outbox-create_outbox t db1 db2 orow e2
            ∙ ap (λ l. l ++ orow ∷ []) (pg.outbox-create_event t db db1 row e1);
      }

  -- An append at the version that the stream ends with is done: the event stands at the stream's
  -- end and the envelope at the outbox's.
  pub append_current :
      (env : Fresh) (args : AppendArgs) (db : Db)
      → IsContiguous 0 (stream db args)
      → args.expected_version ≡ length (stream db args)
      → IsFresh db env
      → (db' : Db) × IsAppended env args db db'
  append_current env args db c e fresh =
      let (db1, e1) = create_event_done env args db c e fresh.event_id_free in
      let free =
        pg.outbox_id_taken-create_event _ db db1 _ env.event_id e1 ∙ fresh.outbox_id_free in
      let (db2, e2) = create_outbox_done env args db1 free in
      (db2, IsAppended-of_written env args db db1 db2 c e e1 e2)

  -- An append below the version that the stream ends with throws `ConcurrencyError` and writes
  -- nothing.
  pub append_stale :
      (env : Fresh) (args : AppendArgs) (db : Db)
      → IsContiguous 0 (stream db args)
      → args.expected_version < length (stream db args)
      → append_with_expected_version pg env args db
        ≡ (throw (concurrency args.aggregate_id (args.expected_version + 1)), db)
  unfolding append_with_expected_version
  append_stale env args db c lt =
      let taken : version_taken (args.expected_version + 1) (stream db args) ≡ true =
        version_taken-IsContiguous _ 0 _ c ∙ ground arith in
      let refused =
        violation_of_unique
          (create_event args.tenant_id db (event_row env.inserted_at args (envelope_of env args)))
          (pg.write_status-create_event _ _ _ ∙ ground (arith, taken, eq_refl args.tenant_id)) in
      ground (arith, refused)

  -- `loadAggregate` gives the fold of the stream, and as its version the number of its events.
  pub version-load_aggregate {ℓ} :
      {S : Type ℓ} (fold : S → Event → S) (initial : S) (t a : String) (db : Db)
      → IsContiguous 0 (rows db t a)
      → (load_aggregate pg db t a fold initial).version ≡ length (rows db t a)
  unfolding load_aggregate
  version-load_aggregate fold initial t a db c =
      rw (eq_refl t) (
        version-replay fold (record { state = initial; version = 0 }) (rows db t a) c ∙ omega arith)
