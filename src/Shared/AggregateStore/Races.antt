-- ===== src/Shared/AggregateStore/Races.antt =====
-- Writers that race for one aggregate through aggregate-store.ts, and what a reader then finds.
use native.Mathlib.Decide.{dec_lt}
use flash_bite.Prelude.{
  false, ◌&&◌, ◌+◌, ◌≤◌, String, ◌≡◌, refl, sym, [], ◌∷◌, ◌++◌, length, ok, throw, Exn, concurrency,
  error, arith, ◌==◌, eq_iff, eq_refl, ◌⊎◌, inl, inr, ◌∙◌, ap, subst, ◌&&◌, Bool-cases,
  length-append,
}
use flash_bite.Contracts.{Event}
use flash_bite.Shared.EventDb.{EventDb, Write, written, unique_violation, denied}
use flash_bite.Shared.AggregateStore.{
  Fresh, AppendArgs, event_row, outbox_row, load_aggregate, append_with_expected_version,
}
use flash_bite.Shared.AggregateStore.Streams.{IsContiguous, IsContiguous-append, replay-append}
use flash_bite.Shared.AggregateStore.Appending.{
  envelope_of, stream, IsFresh, IsAppended, IsAppended-of_written, append_current, append_stale,
}

pub Write-cases {ℓ} :
    {A : Type ℓ} (w : Write A)
    → ((a : A) × (w ≡ written a)) ⊎ ((w ≡ unique_violation) ⊎ (w ≡ denied))
Write-cases (written a) = inl (a, refl)
Write-cases unique_violation = inr (inl refl)
Write-cases denied = inr (inr refl)

module _ (pg : EventDb) where
  open pg use {Db, rows, create_event, create_outbox}

  -- Every stream's versions run 1, 2, 3, … .
  abbrev pub IsConsistent : Db → Type 0
  IsConsistent db = (t a : String) → IsContiguous 0 (rows db t a)

  abbrev pub after_append : Fresh → AppendArgs → Db → Db
  after_append env args db = (append_with_expected_version pg env args db).1

  -- What a load gives after an append that was done: the event folded in, one version on.
  pub load-append {ℓ} :
      {S : Type ℓ} (fold : S → Event → S) (initial : S) (env : Fresh) (args : AppendArgs)
      (db db' : Db)
      → IsAppended pg env args db db'
      → load_aggregate pg db' args.tenant_id args.aggregate_id fold initial ≡ record {
        state =
            fold
              (load_aggregate pg db args.tenant_id args.aggregate_id fold initial).state
              args.event;
        version = args.expected_version + 1;
      }
  unfolding load_aggregate
  load-append fold initial env args db db' done =
      rw (eq_refl args.tenant_id, done.appended)
        (replay-append fold (record { state = initial; version = 0 })
          (rows db args.tenant_id args.aggregate_id)
          (event_row env.inserted_at args (envelope_of env args)))

  -- Of two writers that loaded the last version of one aggregate, whatever they write, the first to
  -- append, with an id that is not in use, succeeds, and the second gets `ConcurrencyError` and leaves
  -- what the first wrote.
  pub append_race :
      (env₁ env₂ : Fresh) (args₁ args₂ : AppendArgs) (db : Db)
      → IsContiguous 0 (stream pg db args₁)
      → args₁.expected_version ≡ length (stream pg db args₁)
      → args₂.tenant_id ≡ args₁.tenant_id
      → args₂.aggregate_id ≡ args₁.aggregate_id
      → args₂.expected_version ≡ args₁.expected_version
      → IsFresh pg db env₁
      → let first = append_with_expected_version pg env₁ args₁ db in
        (first.0 ≡ ok (envelope_of env₁ args₁))
        × (append_with_expected_version pg env₂ args₂ first.1
            ≡ (throw (concurrency args₂.aggregate_id (args₂.expected_version + 1)), first.1))
  append_race env₁ env₂ args₁ args₂ db c e t a v fresh =
      let (db', done) = append_current pg env₁ args₁ db c e fresh in
      let row = event_row env₁.inserted_at args₁ (envelope_of env₁ args₁) in
      let s : stream pg db' args₂ ≡ stream pg db args₁ ++ row ∷ [] = rw (t, a) done.appended in
      let longer : length (stream pg db' args₂) ≡ length (stream pg db args₁) + 1 =
        ap length s ∙ length-append (stream pg db args₁) (row ∷ []) in
      let contiguous : IsContiguous 0 (stream pg db' args₂) =
        rw s (IsContiguous-append row 0 (stream pg db args₁) c (omega arith)) in
      rw done.returns (refl, append_stale pg env₂ args₂ db' contiguous (omega arith))

  appended-IsConsistent :
      (env : Fresh) (args : AppendArgs) (db db' : Db)
      → IsConsistent db
      → args.expected_version ≡ length (stream pg db args)
      → IsAppended pg env args db db'
      → IsConsistent db'
  appended-IsConsistent env args db db' c e done t a =
      elim (Bool-cases (args.tenant_id == t && args.aggregate_id == a)) [
        | inl same ↦
            let et : args.tenant_id ≡ t = (eq_iff _ _).0 (ground (arith, same)) in
            let ea : args.aggregate_id ≡ a = (eq_iff _ _).0 (ground (arith, same)) in
            rw (← et, ← ea, done.appended)
              (IsContiguous-append (event_row env.inserted_at args (envelope_of env args)) 0
                (stream pg db args) (c args.tenant_id args.aggregate_id) (omega arith))
        | inr other ↦ rw (done.others_kept t a other) (c t a)
      ]

  abbrev pub Refused : Fresh → AppendArgs → Db → Type 0
  Refused env args db = (x : Exn) × (append_with_expected_version pg env args db ≡ (throw x, db))

  Refused-first :
      (env : Fresh) (args : AppendArgs) (db : Db)
      → (create_event args.tenant_id db (event_row env.inserted_at args (envelope_of env args))
          ≡ unique_violation)
        ⊎ (create_event args.tenant_id db (event_row env.inserted_at args (envelope_of env args))
            ≡ denied)
      → Refused env args db
  unfolding append_with_expected_version
  Refused-first env args db (inl h) =
      (concurrency args.aggregate_id (args.expected_version + 1), ground (arith, h))
  Refused-first env args db (inr h) = (error "row-level security", ground (arith, h))

  Refused-second :
      (env : Fresh) (args : AppendArgs) (db db1 : Db)
      → create_event args.tenant_id db (event_row env.inserted_at args (envelope_of env args))
        ≡ written db1
      → (create_outbox args.tenant_id db1 (outbox_row args (envelope_of env args))
          ≡ unique_violation)
        ⊎ (create_outbox args.tenant_id db1 (outbox_row args (envelope_of env args)) ≡ denied)
      → Refused env args db
  unfolding append_with_expected_version
  Refused-second env args db db1 h1 (inl h) =
      (concurrency args.aggregate_id (args.expected_version + 1), ground (arith, h1, h))
  Refused-second env args db db1 h1 (inr h) = (error "row-level security", ground (arith, h1, h))

  IsAppended-after :
      (env : Fresh) (args : AppendArgs) (db db' : Db)
      → IsAppended pg env args db db'
      → IsAppended pg env args db (after_append env args db)
  IsAppended-after env args db db' done =
      subst (IsAppended pg env args db) (sym (ap (λ r. r.1) done.returns)) done

  -- an append to another stream leaves this one as it is
  pub append_elsewhere :
      (env : Fresh) (args : AppendArgs) (t a : String) (db : Db)
      → (args.tenant_id == t && args.aggregate_id == a) ≡ false
      → rows (after_append env args db) t a ≡ rows db t a
  unfolding append_with_expected_version
  append_elsewhere env args t a db ne =
      let row = event_row env.inserted_at args (envelope_of env args) in
      let orow = outbox_row args (envelope_of env args) in
      elim (Write-cases (create_event args.tenant_id db row)) [
        | inr (inl h) ↦ ground (arith, h)
        | inr (inr h) ↦ ground (arith, h)
        | inl (db1, h1) ↦ elim (Write-cases (create_outbox args.tenant_id db1 orow)) [
          | inr (inl h) ↦ ground (arith, h1, h)
          | inr (inr h) ↦ ground (arith, h1, h)
          | inl (db2, h2) ↦ ground (
            arith,
            h1,
            h2,
            ne,
            pg.rows-create_event args.tenant_id db db1 row t a,
            pg.rows-create_outbox args.tenant_id db1 db2 orow t a,
          )
        ]
      ]

  -- An append at the stream's last version throws and writes nothing, or is done whole: the event
  -- and its outbox row come together.
  pub append_atomic :
      (env : Fresh) (args : AppendArgs) (db : Db)
      → IsContiguous 0 (stream pg db args)
      → args.expected_version ≡ length (stream pg db args)
      → Refused env args db ⊎ IsAppended pg env args db (after_append env args db)
  append_atomic env args db c e =
      elim (Write-cases
        (create_event args.tenant_id db (event_row env.inserted_at args (envelope_of env args)))) [
          | inr (inl h) ↦ inl (Refused-first env args db (inl h))
          | inr (inr h) ↦ inl (Refused-first env args db (inr h))
          | inl (db1, h1) ↦
              elim (Write-cases
                (create_outbox args.tenant_id db1 (outbox_row args (envelope_of env args)))) [
                  | inr h ↦ inl (Refused-second env args db db1 h1 h)
                  | inl (db2, h2) ↦ inr (
                      IsAppended-after env args db db2
                        (IsAppended-of_written pg env args db db1 db2 c e h1 h2))
                ]
        ]

  -- Appends at a version that was loaded, current or stale, keep every stream's versions running.
  pub append-IsConsistent :
      (env : Fresh) (args : AppendArgs) (db : Db)
      → IsConsistent db
      → args.expected_version ≤ length (stream pg db args)
      → IsConsistent (after_append env args db)
  append-IsConsistent env args db c le =
      elim (dec_lt args.expected_version (length (stream pg db args))) [
        | yes lt ↦ unchanged (append_stale pg env args db (c _ _) lt)
        | no ge ↦ elim (append_atomic env args db (c _ _) (omega arith)) [
          | inl (x, h) ↦ unchanged h
          | inr done ↦
              appended-IsConsistent env args db (after_append env args db) c (omega arith) done
        ]
      ]
    where
      unchanged :
          {x : Exn}
          → append_with_expected_version pg env args db ≡ (throw x, db)
          → IsConsistent (after_append env args db)
      unchanged h = subst IsConsistent (sym (ap (λ r. r.1) h)) c
