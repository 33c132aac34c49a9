-- ===== src/Projection/Rebuild.antt =====
-- apps/projection-worker/src/rebuild.ts: the whole of the replay, through the inbox, into a read model
-- that was cleared. Nothing that a projection writes has the correlation id `c` that is made up for a
-- row.
pub mod Loaded
use flash_bite.Prelude.{
  ℕ, String, ◌≡◌, refl, ap, ◌∙◌, subst, false, List, [], ◌∷◌, length, All, none, is_some,
}
use flash_bite.Contracts.{AggregateType, OrderView, DispatchView}
use flash_bite.Stores.{KeyedStore}
use flash_bite.Shared.EventDb.{EventRow}
use flash_bite.Projection.{
  ProcessedEvent, Collections, mark_processed, inbox_id, projection_consumer, dispatch_consumer,
}
use flash_bite.Projection.Orders.{apply_event, project_order}
use flash_bite.Projection.Dispatches.{apply_dispatch_event, project_dispatch}
use flash_bite.Projection.Replay.{envelope_of_row, replay_orders}
use flash_bite.Projection.Redelivery.{applies}

-- `applyDispatchEvent`'s default of `offerTimeoutSeconds`
abbrev pub default_offer_seconds : ℕ
default_offer_seconds = 30

-- `deleteMany({})` of a collection: no document is left.
pub record Clearing (V : Type 0) (store : KeyedStore String V) : Type 0 where
  pub delete_many : store.Db → store.Db
  pub find-delete_many : (db : store.Db) (k : String) → store.find (delete_many db) k ≡ none

-- The rows of orders, and those of dispatches
abbrev pub keep_order : AggregateType → EventRow → List EventRow → List EventRow
keep_order AggregateType.order r rows = r ∷ rows
keep_order AggregateType.dispatch r rows = rows

abbrev keep_dispatch : AggregateType → EventRow → List EventRow → List EventRow
keep_dispatch AggregateType.order r rows = rows
keep_dispatch AggregateType.dispatch r rows = r ∷ rows

abbrev pub orders_of : List EventRow → List EventRow
orders_of [] = []
orders_of (r ∷ rows) = keep_order r.aggregate_type r (orders_of rows)

abbrev pub dispatches_of : List EventRow → List EventRow
dispatches_of [] = []
dispatches_of (r ∷ rows) = keep_dispatch r.aggregate_type r (dispatches_of rows)

module _ (orders : KeyedStore String OrderView) (dispatches : KeyedStore String DispatchView)
    (processed : KeyedStore String ProcessedEvent) (c : String) where
  pub record ReadModel : Type 0 where
    pub orders_db : orders.Db
    pub dispatches_db : dispatches.Db
    pub processed_db : processed.Db

  abbrev pub with_orders : ReadModel → Collections OrderView orders processed → ReadModel
  with_orders m done = record {
    orders_db = done.view;
    dispatches_db = m.dispatches_db;
    processed_db = done.inbox;
  }

  abbrev pub with_dispatches : ReadModel → Collections DispatchView dispatches processed → ReadModel
  with_dispatches m done = record {
    orders_db = m.orders_db;
    dispatches_db = done.view;
    processed_db = done.inbox;
  }

  unfoldable pub apply_row : AggregateType → EventRow → ReadModel → ReadModel
  unfolding apply_event apply_dispatch_event
  apply_row AggregateType.dispatch r m =
      with_dispatches m
        (apply_dispatch_event dispatches processed default_offer_seconds (envelope_of_row c r)
          (record { view = m.dispatches_db; inbox = m.processed_db })).1
  apply_row AggregateType.order r m =
      with_orders m
        (apply_event orders processed (envelope_of_row c r)
          (record { view = m.orders_db; inbox = m.processed_db })).1

  unfoldable pub apply_rows : List EventRow → ReadModel → ReadModel
  unfolding apply_row
  apply_rows [] m = m
  apply_rows (r ∷ rows) m = apply_rows rows (apply_row r.aggregate_type r m)

  module _ (all_orders : Clearing OrderView orders)
      (all_dispatches : Clearing DispatchView dispatches)
      (all_processed : Clearing ProcessedEvent processed) where
    -- The three `deleteMany`
    unfoldable pub cleared : ReadModel → ReadModel
    cleared m = record {
      orders_db = all_orders.delete_many m.orders_db;
      dispatches_db = all_dispatches.delete_many m.dispatches_db;
      processed_db = all_processed.delete_many m.processed_db;
    }

    -- `rows` is what `findMany` gives.
    unfoldable pub rebuild_projection : List EventRow → ReadModel → ℕ × ReadModel
    unfolding cleared apply_rows
    rebuild_projection rows m = (length rows, apply_rows rows (cleared m))

  -- Each row by its projection, the inbox aside.
  unfoldable pub replay_dispatches : List EventRow → dispatches.Db → dispatches.Db
  unfolding project_dispatch
  replay_dispatches [] db = db
  replay_dispatches (r ∷ rows) db =
      replay_dispatches rows
        (project_dispatch dispatches default_offer_seconds (envelope_of_row c r) db)

  abbrev consumer_of : AggregateType → String
  consumer_of AggregateType.order = projection_consumer
  consumer_of AggregateType.dispatch = dispatch_consumer

  -- The inbox's id of a row
  abbrev pub id_of : AggregateType → EventRow → String
  id_of t r = inbox_id (consumer_of t) (envelope_of_row c r)

  abbrev pub row_id : EventRow → String
  row_id r = id_of r.aggregate_type r

  -- The inbox has no row of these, and no two of them have one id.
  abbrev pub AreNew : List EventRow → processed.Db → Type 0
  AreNew [] inbox = Unit
  AreNew (r ∷ rows) inbox =
      (processed.find inbox (row_id r) ≡ none)
      × All (λ x. processed.same (row_id r) (row_id x) ≡ false) rows
      × AreNew rows inbox

  AreNew-put :
      (rows : List EventRow) (r : EventRow) (doc : ProcessedEvent) (inbox : processed.Db)
      → All (λ x. processed.same (row_id r) (row_id x) ≡ false) rows
      → AreNew rows inbox
      → AreNew rows (processed.put inbox (row_id r) doc)
  AreNew-put [] r doc inbox others new = tt
  AreNew-put (x ∷ rows) r doc inbox others new =
      (rw (processed.find-put, others.0) new.0, new.1, AreNew-put rows r doc inbox others.1 new.2)

  abbrev doc_of : AggregateType → EventRow → ProcessedEvent
  doc_of t r = record { tenant_id = r.tenant_id; consumer = consumer_of t; event_id = r.id }

  marked_by : AggregateType → EventRow → processed.Db → processed.Db
  marked_by t r inbox = processed.put inbox (id_of t r) (doc_of t r)

  -- What a row of its type writes when the inbox does not have it.
  stepped : AggregateType → EventRow → ReadModel → ReadModel
  stepped AggregateType.order r m = record {
    orders_db = project_order orders (envelope_of_row c r) m.orders_db;
    dispatches_db = m.dispatches_db;
    processed_db = marked_by AggregateType.order r m.processed_db;
  }
  stepped AggregateType.dispatch r m = record {
    orders_db = m.orders_db;
    dispatches_db =
        project_dispatch dispatches default_offer_seconds (envelope_of_row c r) m.dispatches_db;
    processed_db = marked_by AggregateType.dispatch r m.processed_db;
  }

  mark_new :
      (View : Type 0) (views : KeyedStore String View) (t : AggregateType) (r : EventRow)
      (inbox : processed.Db)
      → processed.find inbox (id_of t r) ≡ none
      → mark_processed View views processed (consumer_of t) (envelope_of_row c r) inbox
        ≡ marked_by t r inbox
  unfolding mark_processed marked_by
  mark_new View views t r inbox h = rw (h, mark_processed) refl

  apply_row_new :
      (t : AggregateType) (r : EventRow) (m : ReadModel)
      → processed.find m.processed_db (id_of t r) ≡ none
      → apply_row t r m ≡ stepped t r m
  unfolding apply_row apply_event apply_dispatch_event stepped
  apply_row_new AggregateType.order r m h =
      ap (λ x. with_orders m x.1)
        (applies OrderView orders processed (project_order orders) projection_consumer
          (envelope_of_row c r) (record { view = m.orders_db; inbox = m.processed_db })
          (ap is_some h))
      ∙ ap (λ x. record (stepped AggregateType.order r m) { processed_db = x })
          (mark_new OrderView orders AggregateType.order r m.processed_db h)
  apply_row_new AggregateType.dispatch r m h =
      ap (λ x. with_dispatches m x.1)
        (applies DispatchView dispatches processed
          (project_dispatch dispatches default_offer_seconds) dispatch_consumer
          (envelope_of_row c r) (record { view = m.dispatches_db; inbox = m.processed_db })
          (ap is_some h))
      ∙ ap (λ x. record (stepped AggregateType.dispatch r m) { processed_db = x })
          (mark_new DispatchView dispatches AggregateType.dispatch r m.processed_db h)

  still_new :
      (t : AggregateType) (rows : List EventRow) (r : EventRow) (m : ReadModel)
      → r.aggregate_type ≡ t
      → All (λ x. processed.same (row_id r) (row_id x) ≡ false) rows
      → AreNew rows m.processed_db
      → AreNew rows (stepped t r m).processed_db
  unfolding stepped marked_by
  still_new AggregateType.order rows r m e others new =
      subst (λ id. AreNew rows (processed.put m.processed_db id (doc_of AggregateType.order r)))
        (ap (λ t. id_of t r) e)
        (AreNew-put rows r (doc_of AggregateType.order r) m.processed_db others new)
  still_new AggregateType.dispatch rows r m e others new =
      subst (λ id. AreNew rows (processed.put m.processed_db id (doc_of AggregateType.dispatch r)))
        (ap (λ t. id_of t r) e)
        (AreNew-put rows r (doc_of AggregateType.dispatch r) m.processed_db others new)

  orders_stepped :
      (t : AggregateType) (r : EventRow) (rows : List EventRow) (m : ReadModel)
      → replay_orders orders c rows (stepped t r m).orders_db
        ≡ replay_orders orders c (keep_order t r rows) m.orders_db
  unfolding stepped replay_orders
  orders_stepped AggregateType.order r rows m = refl
  orders_stepped AggregateType.dispatch r rows m = refl

  dispatches_stepped :
      (t : AggregateType) (r : EventRow) (rows : List EventRow) (m : ReadModel)
      → replay_dispatches rows (stepped t r m).dispatches_db
        ≡ replay_dispatches (keep_dispatch t r rows) m.dispatches_db
  unfolding stepped replay_dispatches
  dispatches_stepped AggregateType.order r rows m = refl
  dispatches_stepped AggregateType.dispatch r rows m = refl

  apply_rows_lem :
      (rows : List EventRow) (m : ReadModel)
      → AreNew rows m.processed_db
      → ((apply_rows rows m).orders_db ≡ replay_orders orders c (orders_of rows) m.orders_db)
        × ((apply_rows rows m).dispatches_db
            ≡ replay_dispatches (dispatches_of rows) m.dispatches_db)
  unfolding apply_rows replay_orders replay_dispatches
  apply_rows_lem [] m new = (refl, refl)
  apply_rows_lem (r ∷ rows) m new =
      let t = r.aggregate_type in
      let step = apply_row_new t r m new.0 in
      let rest = apply_rows_lem rows (stepped t r m) (still_new t rows r m refl new.1 new.2) in
      (
        ap (λ x. (apply_rows rows x).orders_db) step
            ∙ rest.0
            ∙ orders_stepped t r (orders_of rows) m,
        ap (λ x. (apply_rows rows x).dispatches_db) step
            ∙ rest.1
            ∙ dispatches_stepped t r (dispatches_of rows) m,
      )

  -- No two of the rows have one inbox id.
  abbrev pub OwnIds : List EventRow → Type 0
  OwnIds [] = Unit
  OwnIds (r ∷ rows) = All (λ x. processed.same (row_id r) (row_id x) ≡ false) rows × OwnIds rows

  OwnIds-AreNew :
      (rows : List EventRow) (inbox : processed.Db)
      → ((id : String) → processed.find inbox id ≡ none)
      → OwnIds rows
      → AreNew rows inbox
  OwnIds-AreNew [] inbox empty own = tt
  OwnIds-AreNew (r ∷ rows) inbox empty own =
      (empty (row_id r), own.0, OwnIds-AreNew rows inbox empty own.1)

  -- A rebuild from rows with ids of their own skips none of them, whatever the inbox had before: the
  -- orders are those that the rows of orders make of no orders, each once and in their order, and the
  -- dispatches those that the rows of dispatches make of none.
  pub rebuild_projection_lem :
      (all_orders : Clearing OrderView orders) (all_dispatches : Clearing DispatchView dispatches)
      (all_processed : Clearing ProcessedEvent processed) (rows : List EventRow) (m : ReadModel)
      → OwnIds rows
      → let rebuilt = (rebuild_projection all_orders all_dispatches all_processed rows m).1 in
        (rebuilt.orders_db
          ≡ replay_orders orders c (orders_of rows) (all_orders.delete_many m.orders_db))
        × (rebuilt.dispatches_db
            ≡ replay_dispatches (dispatches_of rows) (all_dispatches.delete_many m.dispatches_db))
  unfolding rebuild_projection cleared
  rebuild_projection_lem all_orders all_dispatches all_processed rows m own =
      apply_rows_lem rows (cleared all_orders all_dispatches all_processed m) (
        OwnIds-AreNew rows (all_processed.delete_many m.processed_db)
          (all_processed.find-delete_many m.processed_db) own)
