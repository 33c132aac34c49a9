-- ===== src/Projection/Redelivery.antt =====
-- At-least-once delivery to the consumers of apps/projection-worker, and a crash between the update
-- and the inbox.
use flash_bite.Prelude.{
  String, ◌≡◌, ◌≤◌, refl, true, false, subst, Option, none, some, is_some, arith, inl, inr,
  Option-cases, Bool-cases, ap, ◌∙◌, sym,
}
use flash_bite.Contracts.{
  Event, EventEnvelope, OrderView, order_placed, order_accepted, order_cancelled,
  driver_telemetry_streamed, driver_offered, dispatch_accepted, order_picked_up, order_delivered,
  other,
}
use flash_bite.Stores.{KeyedStore}
use flash_bite.Projection.{
  ProcessedEvent, Collections, Applied, apply_once, mark_processed, inbox_id, view_key,
}
use flash_bite.Projection.Orders.{written_order, project_order}

module _ (View : Type 0) (views : KeyedStore String View)
    (processed : KeyedStore String ProcessedEvent) where
  pub marked :
      (consumer : String) (e : EventEnvelope) (inbox : processed.Db)
      → is_some (
          processed.find
            (mark_processed View views processed consumer e inbox)
            (inbox_id consumer e))
        ≡ true
  unfolding mark_processed
  marked consumer e inbox = elim (Option-cases (processed.find inbox (inbox_id consumer e))) [
    | inl h ↦
        rw (h, mark_processed)
          (rw
            (
              processed.find-put,
              (processed.same_iff (inbox_id consumer e) (inbox_id consumer e)).1 refl,
            )
            refl)
    | inr (p, h) ↦ rw (h, mark_processed) (rw h refl)
  ]

  pub skips :
      (project : EventEnvelope → views.Db → views.Db) (consumer : String) (e : EventEnvelope)
      (db : Collections View views processed)
      → is_some (processed.find db.inbox (inbox_id consumer e)) ≡ true
      → apply_once View views processed project consumer e db ≡ (Applied.skipped, db)
  unfolding apply_once
  skips project consumer e db h = rw (h, apply_once) refl

  pub applies :
      (project : EventEnvelope → views.Db → views.Db) (consumer : String) (e : EventEnvelope)
      (db : Collections View views processed)
      → is_some (processed.find db.inbox (inbox_id consumer e)) ≡ false
      → apply_once View views processed project consumer e db ≡ (
        Applied.applied,
        record {
          view = project e db.view;
          inbox = mark_processed View views processed consumer e db.inbox;
        },
      )
  unfolding apply_once
  applies project consumer e db h = rw (h, apply_once) refl

  -- The second delivery of an event is skipped and changes nothing.
  pub apply_once-apply_once :
      (project : EventEnvelope → views.Db → views.Db) (consumer : String) (e : EventEnvelope)
      (db : Collections View views processed)
      → let first = apply_once View views processed project consumer e db in
        apply_once View views processed project consumer e first.1 ≡ (Applied.skipped, first.1)
  apply_once-apply_once project consumer e db =
      elim (Bool-cases (is_some (processed.find db.inbox (inbox_id consumer e)))) [
        | inl h ↦ settle (skips project consumer e db h) (skips project consumer e db h)
        | inr h ↦
            settle (applies project consumer e db h)
              (skips project consumer e _ (marked consumer e db.inbox))
      ]
    where
      settle :
          {outcome : Applied} {db' : Collections View views processed}
          → apply_once View views processed project consumer e db ≡ (outcome, db')
          → apply_once View views processed project consumer e db' ≡ (Applied.skipped, db')
          → apply_once View views processed project consumer e
              (apply_once View views processed project consumer e db).1
            ≡ (Applied.skipped, (apply_once View views processed project consumer e db).1)
      settle h again =
          subst (λ d. apply_once View views processed project consumer e d ≡ (Applied.skipped, d))
            (sym (ap (λ r. r.1) h)) again

module _ (e : EventEnvelope) where
  written_order_again :
      (ev : Event) (o : Option OrderView) (v : OrderView)
      → written_order e ev o ≡ some v
      → written_order e ev (some v) ≡ none
  unfolding written_order
  written_order_again (order_placed p) none v h = ground (arith, h)
  written_order_again (order_placed p) (some w) v h = ground (arith, h)
  written_order_again (order_accepted p) none v h = ground (arith, h)
  written_order_again (order_accepted p) (some w) v h = ground (arith, h)
  written_order_again (order_cancelled p) none v h = ground (arith, h)
  written_order_again (order_cancelled p) (some w) v h = ground (arith, h)
  written_order_again (driver_telemetry_streamed _) o v h = refl
  written_order_again (driver_offered _) o v h = refl
  written_order_again (dispatch_accepted _) o v h = refl
  written_order_again (order_picked_up _) o v h = refl
  written_order_again (order_delivered _) o v h = refl
  written_order_again (Event.dispatch_failed _) o v h = refl
  written_order_again (other _ _) o v h = refl

  written_order_later :
      (ev : Event) (w v : OrderView)
      → written_order e ev (some w) ≡ some v
      → (w.version ≤ v.version)
  unfolding written_order
  written_order_later (order_placed p) w v h = ground (arith, h)
  written_order_later (order_accepted p) w v h = ground (arith, h)
  written_order_later (order_cancelled p) w v h = ground (arith, h)
  written_order_later (driver_telemetry_streamed _) w v h = ground (arith, h)
  written_order_later (driver_offered _) w v h = ground (arith, h)
  written_order_later (dispatch_accepted _) w v h = ground (arith, h)
  written_order_later (order_picked_up _) w v h = ground (arith, h)
  written_order_later (order_delivered _) w v h = ground (arith, h)
  written_order_later (Event.dispatch_failed _) w v h = ground (arith, h)
  written_order_later (other _ _) w v h = ground (arith, h)

module _ (orders : KeyedStore String OrderView) (e : EventEnvelope) where
  stops :
      (db : orders.Db)
      → written_order e e.event (orders.find db (view_key e)) ≡ none
      → project_order orders e db ≡ db
  unfolding project_order
  stops db h = rw (h, project_order) refl

  writes :
      (db : orders.Db) (v : OrderView)
      → written_order e e.event (orders.find db (view_key e)) ≡ some v
      → project_order orders e db ≡ orders.put db (view_key e) v
  unfolding project_order
  writes db v h = rw (h, project_order) refl

  -- An event that is applied again, its mark in the inbox lost, leaves the orders as they are.
  pub project_order-project_order :
      (db : orders.Db)
      → project_order orders e (project_order orders e db) ≡ project_order orders e db
  project_order-project_order db =
      elim (Option-cases (written_order e e.event (orders.find db (view_key e)))) [
        | inl h ↦ again (stops db h) (stops db h)
        | inr (v, h) ↦ again (writes db v h) (
            stops (orders.put db (view_key e) v) (
              rw (orders.find-put, (orders.same_iff (view_key e) (view_key e)).1 refl)
                (written_order_again e e.event (orders.find db (view_key e)) v h)))
      ]
    where
      again :
          {db' : orders.Db}
          → project_order orders e db ≡ db'
          → project_order orders e db' ≡ db'
          → project_order orders e (project_order orders e db) ≡ project_order orders e db
      again h fixed = subst (λ d. project_order orders e d ≡ d) (sym h) fixed

  -- Whatever event is applied, an order that is in the read model stays there, and its version does
  -- not go back.
  pub project_order_later :
      (db : orders.Db) (k : String) (w : OrderView)
      → orders.find db k ≡ some w
      → (v : OrderView) × (orders.find (project_order orders e db) k ≡ some v)
        × (w.version ≤ v.version)
  project_order_later db k w h =
      elim (Option-cases (written_order e e.event (orders.find db (view_key e)))) [
        | inl stop ↦ (w, ap (λ d. orders.find d k) (stops db stop) ∙ h, omega arith)
        | inr (v, write) ↦ elim (Bool-cases (orders.same (view_key e) k)) [
          | inl hit ↦
              let here = ap (orders.find db) ((orders.same_iff (view_key e) k).0 hit) ∙ h in
              (
                v,
                ap (λ d. orders.find d k) (writes db v write) ∙ rw (orders.find-put, hit) refl,
                written_order_later e e.event w v (rw here at write),
              )
          | inr miss ↦ (
            w,
            ap (λ d. orders.find d k) (writes db v write) ∙ rw (orders.find-put, miss) h,
            omega arith,
          )
        ]
      ]
