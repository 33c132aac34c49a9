-- ===== src/SagaWorker/DispatchActivities/Runs.antt =====
-- The activities of dispatch-activities.ts, as loads and appends of the dispatch's stream.
use mathlib.Core.List.{Memᴰ}
use flash_bite.Prelude.{
  String, ◌≡◌, refl, sym, List, ◌∷◌, Option, Result, ok, throw, inl, inr, arith, Result-cases,
}
use flash_bite.Contracts.{
  Event, driver_offered, dispatch_accepted, order_picked_up, order_delivered,
}
use flash_bite.Contracts.Keys.{dispatch_aggregate_id}
use flash_bite.Shared.EventDb.{EventDb}
use flash_bite.Shared.DispatchAggregate.{
  DispatchState, fold_dispatch, initial_dispatch_state, offer, accept_offer, pickup, deliver, fail,
}
use flash_bite.Shared.DispatchAggregate.Lifecycle.{
  DispatchCommand, offering, accepting, picking_up, delivering, failing,
}
use flash_bite.Shared.AggregateStore.{Fresh, load_aggregate}
use flash_bite.Shared.AggregateStore.Interleaving.{Pending, Reach, load, commit, here, next}
use flash_bite.SagaWorker.Activities.{db-ignore, db-settle_threw}
use flash_bite.SagaWorker.DispatchActivities.{
  map_ok, append, record_driver_offered, record_dispatch_accepted, record_order_picked_up,
  record_order_delivered, record_dispatch_failed,
}

-- An activity, and what it is called with
pub data Recording : Type 0 where
  offered accepted failed : String → Recording
  picked delivered : Recording

module _ (pg : EventDb) (t o : String) where
  open pg use {Db}

  abbrev pub record_dispatch : Recording → Fresh → Option String → Db → Result (Unit {0}) × Db
  record_dispatch (offered d) env c db = record_driver_offered pg env t o d c db
  record_dispatch (accepted d) env c db = record_dispatch_accepted pg env t o d c db
  record_dispatch picked env c db = record_order_picked_up pg env t o c db
  record_dispatch delivered env c db = record_order_delivered pg env t o c db
  record_dispatch (failed reason) env c db = record_dispatch_failed pg env t o reason c db

  -- steps of the dispatch's stream lead from one database to the other
  abbrev pub RunsDispatch : Db → List Pending → Db → Type 0
  RunsDispatch db ps db' =
      (ps' : List Pending) × Reach pg fold_dispatch initial_dispatch_state DispatchCommand t
        (dispatch_aggregate_id o) (record { db = db; pending = ps })
        (record { db = db'; pending = ps' })

  abbrev Decides : (DispatchState → Result Event) → Type 0
  Decides build = (s : DispatchState) (e : Event) → build s ≡ ok e → DispatchCommand s e

  module _ (env : Fresh) (c : Option String) (db : Db) (ps : List Pending) where
    append-Reach :
        (build : DispatchState → Result Event)
        → Decides build
        → RunsDispatch db ps (append pg env t o build c db).1
    unfolding append
    append-Reach build decides =
        let loaded =
          load_aggregate pg db t (dispatch_aggregate_id o) fold_dispatch initial_dispatch_state in
        elim (Result-cases (build loaded.state)) [
          | inr (x, e) ↦ rw (e, db-settle_threw x) (ps, here)
          | inl (event, e) ↦
              let p : Pending = record { version = loaded.version; event = event } in
              rw (e, db-ignore)
                (
                  p ∷ ps,
                  next (next here (load event (decides loaded.state event e) refl))
                      (commit env _ p (Memᴰ.head refl) refl refl refl refl refl),
                )
        ]

    decided :
        {A : Type 0} (con : A → Event) (r : Result A) (e : Event)
        → map_ok con r ≡ ok e
        → (p : A) × (r ≡ ok p) × (e ≡ con p)
    decided con (ok p) e h = (p, refl, sym (injective h))
      where
        injective : {a b : Event} → ◌≡◌ {A = Result Event} (ok a) (ok b) → a ≡ b
        injective h = ground (arith, h)
    decided con (throw x) e h = ground (arith, h)

    -- Each of the five activities that record what becomes of a dispatch is a run of the steps that
    -- `dispatch_lifecycle` is about.
    pub record_dispatch-Reach : (q : Recording) → RunsDispatch db ps (record_dispatch q env c db).1
    unfolding record_driver_offered record_dispatch_accepted record_order_picked_up
        record_order_delivered record_dispatch_failed
    record_dispatch-Reach (offered d) =
        append-Reach (λ s. map_ok driver_offered (offer s o d))
          (λ s e h. let (p, g, q) = decided driver_offered (offer s o d) e h in offering o d p g q)
    record_dispatch-Reach (accepted d) =
        append-Reach (λ s. map_ok dispatch_accepted (accept_offer s o d))
          (λ s e h.
            let (p, g, q) = decided dispatch_accepted (accept_offer s o d) e h in
            accepting o d p g q)
    record_dispatch-Reach picked =
        append-Reach (λ s. map_ok order_picked_up (pickup s o))
          (λ s e h. let (p, g, q) = decided order_picked_up (pickup s o) e h in picking_up o p g q)
    record_dispatch-Reach delivered =
        append-Reach (λ s. map_ok order_delivered (deliver s o))
          (λ s e h. let (p, g, q) = decided order_delivered (deliver s o) e h in delivering o p g q)
    record_dispatch-Reach (failed reason) =
        append-Reach (λ s. map_ok Event.dispatch_failed (fail s o reason))
          (λ s e h.
            let (p, g, q) = decided Event.dispatch_failed (fail s o reason) e h in
            failing o reason p g q)
