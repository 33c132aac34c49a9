-- ===== src/Projection/Consumers.antt =====
-- apps/projection-worker/src/main.ts: the consumers of the two topics, and messages that come again.
use flash_bite.Prelude.{
  ℕ, String, ◌≡◌, ◌<>◌, refl, ap, ◌∙◌, sym, subst, true, is_some, ok, Result, inl, inr, Bool-cases,
}
use flash_bite.Contracts.{Event, EventEnvelope, OrderView, DispatchView}
use flash_bite.Stores.{KeyedStore}
use flash_bite.Messaging.Headers.{KafkaMessage}
use flash_bite.Messaging.Consume.{
  each_message, envelope_of, message_twice, Reading, refuses, is_empty, reads,
}
use flash_bite.Projection.{
  ProcessedEvent, Collections, apply_once, inbox_id, dispatch_consumer, projection_consumer,
}
use flash_bite.Projection.Orders.{apply_event, project_order}
use flash_bite.Projection.Dispatches.{apply_dispatch_event, project_dispatch}
use flash_bite.Projection.Redelivery.{marked, skips, applies}

module _ (Payload : Type 0) (decode : String → Result Payload) (number time_of : String → ℕ)
    (as_event : String → Payload → Event) (processed : KeyedStore String ProcessedEvent) where
  -- `runConsumer`, of each message
  unfoldable pub run_consumer :
      (orders : KeyedStore String OrderView)
      → String
      → KafkaMessage
      → Collections OrderView orders processed
      → Result (Unit {0}) × Collections OrderView orders processed
  unfolding each_message apply_event
  run_consumer orders =
      each_message Payload decode number time_of as_event
        (λ envelope db. (apply_event orders processed envelope db).1)

  -- `runDispatchConsumer`, of each message
  unfoldable pub run_dispatch_consumer :
      (dispatches : KeyedStore String DispatchView)
      → ℕ
      → String
      → KafkaMessage
      → Collections DispatchView dispatches processed
      → Result (Unit {0}) × Collections DispatchView dispatches processed
  unfolding each_message apply_dispatch_event
  run_dispatch_consumer dispatches offer_timeout_seconds =
      each_message Payload decode number time_of as_event (λ envelope db.
        (apply_dispatch_event dispatches processed offer_timeout_seconds envelope db).1)

  module _ (View : Type 0) (views : KeyedStore String View)
      (project : EventEnvelope → views.Db → views.Db) (consumer : String) where
    apply : EventEnvelope → Collections View views processed → Collections View views processed
    apply envelope db = (apply_once View views processed project consumer envelope db).1

    -- Envelopes of one tenant and one id are one event.
    apply_same :
        (a b : EventEnvelope) (db : Collections View views processed)
        → a.tenant_id ≡ b.tenant_id
        → a.event_id ≡ b.event_id
        → apply b (apply a db) ≡ apply a db
    unfolding apply inbox_id
    apply_same a b db t i =
        elim (Bool-cases (is_some (processed.find db.inbox (inbox_id consumer a)))) [
          | inl h ↦ settle db (ap (λ r. r.1) (skips View views processed project consumer a db h)) h
          | inr h ↦
              settle _ (ap (λ r. r.1) (applies View views processed project consumer a db h))
                (marked View views processed consumer a db.inbox)
        ]
      where
        same_id : inbox_id consumer a ≡ inbox_id consumer b
        same_id =
            ap (λ x. x <> ":" <> consumer <> ":" <> a.event_id) t
            ∙ ap (λ x. b.tenant_id <> ":" <> consumer <> ":" <> x) i

        settle :
            (db' : Collections View views processed)
            → apply a db ≡ db'
            → is_some (processed.find db'.inbox (inbox_id consumer a)) ≡ true
            → apply b (apply a db) ≡ apply a db
        settle db' e h =
            subst (λ d. apply b d ≡ d) (sym e)
              (ap (λ r. r.1)
                (skips View views processed project consumer b db'
                  (subst (λ id. is_some (processed.find db'.inbox id) ≡ true) same_id h)))

    again :
        (new_id new_id' : String) (message : KafkaMessage) (db : Collections View views processed)
        → Reading Payload decode number time_of as_event new_id new_id' message
        → let first = each_message Payload decode number time_of as_event apply new_id message db in
          each_message Payload decode number time_of as_event apply new_id' message first.1 ≡ first
    unfolding each_message
    again new_id new_id' message db (refuses e h h') = rw (h, h', each_message) refl
    again new_id new_id' message db (is_empty h h') = rw (h, h', each_message) refl
    again new_id new_id' message db (reads a b h h' t i) =
        rw (h, h', each_message)
          (ap (λ d. (ok tt, d))
            (apply_same (envelope_of Payload decode number time_of as_event a)
              (envelope_of Payload decode number time_of as_event b) db t i))

  run_consumer-run_consumer :
      (orders : KeyedStore String OrderView) (new_id new_id' : String) (message : KafkaMessage)
      (db : Collections OrderView orders processed)
      → let first = run_consumer orders new_id message db in
        run_consumer orders new_id' message first.1 ≡ first
  unfolding run_consumer apply_event apply
  run_consumer-run_consumer orders new_id new_id' message db =
      again OrderView orders (project_order orders) projection_consumer new_id new_id' message db
        (message_twice Payload decode number time_of as_event new_id new_id' message)

  run_dispatch_consumer-again :
      (dispatches : KeyedStore String DispatchView) (seconds : ℕ) (new_id new_id' : String)
      (message : KafkaMessage) (db : Collections DispatchView dispatches processed)
      → let first = run_dispatch_consumer dispatches seconds new_id message db in
        run_dispatch_consumer dispatches seconds new_id' message first.1 ≡ first
  unfolding run_dispatch_consumer apply_dispatch_event apply
  run_dispatch_consumer-again dispatches seconds new_id new_id' message db =
      again DispatchView dispatches (project_dispatch dispatches seconds) dispatch_consumer new_id
        new_id' message db
        (message_twice Payload decode number time_of as_event new_id new_id' message)

  -- A message that comes again to either consumer of the projection worker is answered as before
  -- and changes neither the views nor the inbox, whatever correlation ids are made up for it.
  pub consumers_again :
      (orders : KeyedStore String OrderView) (dispatches : KeyedStore String DispatchView)
      (seconds : ℕ) (new_id new_id' : String) (message : KafkaMessage)
      (o : Collections OrderView orders processed)
      (d : Collections DispatchView dispatches processed)
      → let first = run_consumer orders new_id message o in
        let first' = run_dispatch_consumer dispatches seconds new_id message d in
        (run_consumer orders new_id' message first.1 ≡ first)
        × (run_dispatch_consumer dispatches seconds new_id' message first'.1 ≡ first')
  consumers_again orders dispatches seconds new_id new_id' message o d = (
    run_consumer-run_consumer orders new_id new_id' message o,
    run_dispatch_consumer-again dispatches seconds new_id new_id' message d,
  )
