-- ===== src/Projection/Rebuild/Loaded.antt =====
-- A rebuild (apps/projection-worker/src/rebuild.ts) beside a load of the aggregate: both come to the
-- same order.
use flash_bite.Prelude.{
  ℕ, String, ◌<>◌, ◌≡◌, refl, sym, subst, Bool, false, List, [], ◌∷◌, ◌==◌, eq_iff, eq_refl,
  if◌then◌else◌, arith, inl, inr, Bool-cases, Option-cases,
}
use flash_bite.Contracts.{AggregateType, OrderView, DispatchView}
use flash_bite.Stores.{KeyedStore}
use flash_bite.Shared.EventDb.{EventDb, EventRow}
use flash_bite.Shared.AggregateStore.{load_aggregate, replay}
use flash_bite.Shared.AggregateStore.Streams.{IsContiguous}
use flash_bite.Shared.AggregateStore.Legal.{IsLegal}
use flash_bite.Shared.AggregateStore.Interleaving.{World, Reach, interleaving_safe}
use flash_bite.Shared.OrderAggregate.{OrderState, initial_order_state, fold_order}
use flash_bite.Shared.OrderAggregate.Lifecycle.{OrderCommand}
use flash_bite.Projection.{ProcessedEvent, view_key, payload_order_id}
use flash_bite.Projection.Orders.{written_order, project_order}
use flash_bite.Projection.Replay.{envelope_of_row, Shows, project-Shows, replay_orders}
use flash_bite.Projection.Rebuild.{
  Clearing, ReadModel, OwnIds, orders_of, keep_order, rebuild_projection, rebuild_projection_lem,
}

-- The row is of an order, and names the order that has the key.
abbrev pub is_of : String → AggregateType → EventRow → Bool
is_of k AggregateType.order r = (r.tenant_id <> ":" <> payload_order_id r.event) == k
is_of k AggregateType.dispatch r = false

abbrev pick : String → AggregateType → EventRow → List EventRow → List EventRow
pick k t r rest = if is_of k t r then r ∷ rest else rest

-- The rows of the order that has the key
abbrev pub of_order : String → List EventRow → List EventRow
of_order k [] = []
of_order k (r ∷ rows) = pick k r.aggregate_type r (of_order k rows)

module _ (orders : KeyedStore String OrderView) (c : String) where
  project_elsewhere :
      (k : String) (r : EventRow) (db : orders.Db)
      → (view_key (envelope_of_row c r) == k) ≡ false
      → orders.find (project_order orders (envelope_of_row c r) db) k ≡ orders.find db k
  unfolding project_order
  project_elsewhere k r db miss =
      let e = envelope_of_row c r in
      elim (Option-cases (written_order e e.event (orders.find db (view_key e)))) [
        | inl none_written ↦ rw (none_written, project_order) refl
        | inr (view, written) ↦ rw (written, project_order) (rw (orders.find-put, not_same) refl)
      ]
    where
      not_same : orders.same (view_key (envelope_of_row c r)) k ≡ false
      not_same = elim (Bool-cases (orders.same (view_key (envelope_of_row c r)) k)) [
        | inr differs ↦ differs
        | inl same ↦
            let as_text =
              (eq_iff (view_key (envelope_of_row c r)) k).1
                ((orders.same_iff (view_key (envelope_of_row c r)) k).0 same) in
            ground (arith, as_text, miss)
      ]

  -- A replay of `rows` over `db`, from a view that shows the order, leads to one that shows what the
  -- replay of the order's rows `own` alone gives.
  abbrev Leads : String → List EventRow → List EventRow → Type 0
  Leads k rows own =
      (s : OrderState) (n : ℕ) (db : orders.Db)
      → Shows s n (orders.find db k)
      → IsContiguous n own
      → IsLegal fold_order OrderCommand s own
      → Shows (replay fold_order (record { state = s; version = n }) own).state
          (replay fold_order (record { state = s; version = n }) own).version
          (orders.find (replay_orders orders c rows db) k)

  one_more :
      (k : String) (rows own : List EventRow) (r : EventRow) (t : AggregateType)
      → Leads k rows own
      → Leads k (keep_order t r rows) (pick k t r own)
  unfolding replay_orders replay view_key
  one_more k rows own r AggregateType.dispatch leads s n db h contiguous legal =
      leads s n db h contiguous legal
  one_more k rows own r AggregateType.order leads s n db h contiguous legal =
      let db' = project_order orders (envelope_of_row c r) db in
      elim (Bool-cases (is_of k AggregateType.order r)) [
        | inr miss ↦
            let con : IsContiguous n own = rw miss at contiguous in
            let leg : IsLegal fold_order OrderCommand s own = rw miss at legal in
            rw miss
              (leads s n db' (subst (Shows s n) (sym (project_elsewhere k r db miss)) h) con leg)
        | inl hit ↦
            let con : IsContiguous n (r ∷ own) = rw hit at contiguous in
            let leg : IsLegal fold_order OrderCommand s (r ∷ own) = rw hit at legal in
            rw hit (
              leads (fold_order s r.event) r.version db'
                (project-Shows orders c k s n r db h leg.0 con.0
                  ((eq_iff (view_key (envelope_of_row c r)) k).0 hit))
                (subst (λ m. IsContiguous m own) (sym con.0) con.1) leg.1)
      ]

  replay_orders-Leads :
      (k : String) (rows : List EventRow) → Leads k (orders_of rows) (of_order k rows)
  unfolding replay_orders replay
  replay_orders-Leads k [] = λ s n db h contiguous legal. h
  replay_orders-Leads k (r ∷ rows) =
      one_more k (orders_of rows) (of_order k rows) r r.aggregate_type (replay_orders-Leads k rows)

module _ (orders : KeyedStore String OrderView) (dispatches : KeyedStore String DispatchView)
    (processed : KeyedStore String ProcessedEvent) (c : String)
    (all_orders : Clearing OrderView orders) (all_dispatches : Clearing DispatchView dispatches)
    (all_processed : Clearing ProcessedEvent processed) where
  -- However the writers of an order interleave: a rebuild from the stored rows, whatever the read model
  -- and its inbox had before, leaves a view of the order that shows the state and the version that a
  -- load of the aggregate gives. The rows have inbox ids of their own, and those of them that are of
  -- orders and name this order are the rows of the stream that is loaded, in its order.
  pub rebuild_projection-load :
      (pg : EventDb) (t a k : String) (w w' : World pg) (rows : List EventRow)
      (m : ReadModel orders dispatches processed c)
      → pg.rows w.db t a ≡ []
      → w.pending ≡ []
      → Reach pg fold_order initial_order_state OrderCommand t a w w'
      → of_order k rows ≡ pg.rows w'.db t a
      → OwnIds orders dispatches processed c rows
      → let loaded = load_aggregate pg w'.db t a fold_order initial_order_state in
        let rebuilt =
          rebuild_projection orders dispatches processed c all_orders all_dispatches all_processed
            rows m in
        Shows loaded.state loaded.version (orders.find rebuilt.1.orders_db k)
  unfolding load_aggregate
  rebuild_projection-load pg t a k w w' rows m empty idle reach stored own =
      let safe =
        interleaving_safe pg fold_order initial_order_state OrderCommand t a w w' empty idle
          reach in
      let rebuilt =
        (rebuild_projection_lem orders dispatches processed c all_orders all_dispatches
          all_processed rows m own).0 in
      let bare = all_orders.delete_many m.orders_db in
      rw (eq_refl t, ← stored, rebuilt)
        (replay_orders-Leads orders c k rows initial_order_state 0 bare
          (rw (all_orders.find-delete_many m.orders_db k) (refl, refl))
          (subst (IsContiguous 0) (sym stored) safe.0)
          (subst (IsLegal fold_order OrderCommand initial_order_state) (sym stored) safe.1))
