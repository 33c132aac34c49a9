-- ===== src/Messaging/Consume.antt =====
-- packages/messaging/src/consume.ts, and the handler of messages that the consumers of
-- apps/projection-worker/src/main.ts and apps/telemetry-worker/src/main.ts share. `as_event` is the
-- cast of a payload by the type that the headers name, `time_of` reads an ISO text.
use flash_bite.Prelude.{
  ℕ, String, Option, none, some, Result, ok, throw, Exn, ◌≡◌, refl, inl, inr, Option-cases,
  Result-cases,
}
use flash_bite.Contracts.{Event, EventEnvelope}
use flash_bite.Messaging.Headers.{
  EnvelopeMeta, KafkaMessage, read_envelope, fails, names, headers_twice,
}

module _ (Payload : Type 0) (decode : String → Result Payload) (number time_of : String → ℕ)
    (as_event : String → Payload → Event) where
  -- `{ ...meta, payload }`
  abbrev pub envelope_of : EnvelopeMeta × Payload → EventEnvelope
  envelope_of (meta, payload) = record {
    tenant_id = meta.tenant_id;
    event_id = meta.event_id;
    version = meta.version;
    occurred_at = time_of meta.occurred_at;
    correlation_id = meta.correlation_id;
    event = as_event meta.event_type payload;
  }

  abbrev pub handle :
      {Db : Type 0}
      → (EventEnvelope → Db → Db)
      → Result (Option (EnvelopeMeta × Payload))
      → Db
      → Result (Unit {0}) × Db
  handle apply (throw e) db = (throw e, db)
  handle apply (ok none) db = (ok tt, db)
  handle apply (ok (some read)) db = (ok tt, apply (envelope_of read) db)

  -- `eachMessage`; `new_id` is `randomUUID()`. A message whose handling throws comes again.
  unfoldable pub each_message :
      {Db : Type 0}
      → (EventEnvelope → Db → Db)
      → String
      → KafkaMessage
      → Db
      → Result (Unit {0}) × Db
  unfolding read_envelope
  each_message apply new_id message db =
      handle apply (read_envelope decode number new_id message) db

  -- A message is read in the same way whenever it comes, but for the fresh correlation id: it is
  -- refused, it is no event, or it is one event of one tenant and one id.
  pub data Reading (new_id new_id' : String) (message : KafkaMessage) : Type 0 where
    refuses :
        (e : Exn)
        → read_envelope decode number new_id message ≡ throw e
        → read_envelope decode number new_id' message ≡ throw e
        → Reading new_id new_id' message
    is_empty :
        read_envelope decode number new_id message ≡ ok none
        → read_envelope decode number new_id' message ≡ ok none
        → Reading new_id new_id' message
    reads :
        (a b : EnvelopeMeta × Payload)
        → read_envelope decode number new_id message ≡ ok (some a)
        → read_envelope decode number new_id' message ≡ ok (some b)
        → a.0.tenant_id ≡ b.0.tenant_id
        → a.0.event_id ≡ b.0.event_id
        → Reading new_id new_id' message

  pub message_twice :
      (new_id new_id' : String) (message : KafkaMessage) → Reading new_id new_id' message
  unfolding read_envelope
  message_twice new_id new_id' message = elim (Option-cases message.value) [
    | inl e ↦ is_empty (rw (e, read_envelope) refl) (rw (e, read_envelope) refl)
    | inr (value, e) ↦ elim (headers_twice number message.headers new_id new_id') [
      | fails x h h' ↦
          refuses x (rw (e, read_envelope) (rw h refl)) (rw (e, read_envelope) (rw h' refl))
      | names a b h h' t i ↦ elim (Result-cases (decode value)) [
        | inl (payload, d) ↦
            reads (a, payload) (b, payload) (rw (e, read_envelope) (rw (h, d) refl))
              (rw (e, read_envelope) (rw (h', d) refl)) t i
        | inr (x, d) ↦
            refuses x (rw (e, read_envelope) (rw (h, d) refl))
              (rw (e, read_envelope) (rw (h', d) refl))
      ]
    ]
  ]
