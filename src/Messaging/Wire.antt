-- ===== src/Messaging/Wire.antt =====
-- packages/messaging/src: an envelope that publish.ts encodes, through a topic, to the handler of the
-- consumer that reads it (serde.ts, headers.ts, consume.ts).
use flash_bite.Prelude.{ℕ, String, ◌≡◌, ◌≢◌, refl, ap, ◌∙◌, some, Result, ok, ◌>>=◌, ok-inj, subst}
use flash_bite.Contracts.{Event, EventEnvelope, event_type}
use flash_bite.Messaging.Headers.{
  EnvelopeMeta, KafkaMessage, build_headers, read_envelope, parse_headers-build_headers,
}
use flash_bite.Messaging.Consume.{each_message, envelope_of}
use flash_bite.Messaging.Serde.{
  bind_ok, Registry, IdCache, encode_payload, decode_payload, decode_payload-encode_payload,
}

-- The language's texts of numbers and of times, and what reads them; a payload without its type.
pub record Texts (Payload : Type 0) : Type 0 where
  pub text_of : ℕ → String
  pub number : String → ℕ
  pub iso : ℕ → String
  pub time_of : String → ℕ
  pub payload_of : Event → Payload
  pub as_event : String → Payload → Event
  pub number-text_of : (n : ℕ) → number (text_of n) ≡ n
  pub text_of_some : (n : ℕ) → text_of n ≢ ""
  pub time_of-iso : (t : ℕ) → time_of (iso t) ≡ t

module _ (Payload : Type 0) (texts : Texts Payload) (registry : Registry Payload) where
  open texts use {text_of, number, iso, time_of, payload_of, as_event}

  -- The envelope less its payload
  abbrev pub meta_of : EventEnvelope → EnvelopeMeta
  meta_of envelope = record {
    event_type = event_type envelope.event;
    tenant_id = envelope.tenant_id;
    event_id = envelope.event_id;
    version = envelope.version;
    occurred_at = iso envelope.occurred_at;
    correlation_id = envelope.correlation_id;
  }

  -- What `publishEnvelope` gives to `producer.send`
  abbrev message_of : EventEnvelope → Result String → Result KafkaMessage
  message_of envelope encoded = encoded >>= λ value.
      ok (record { value = some value; headers = build_headers text_of (meta_of envelope) })

  unfoldable pub message_for :
      registry.Db → String → EventEnvelope → IdCache → Result KafkaMessage × IdCache
  unfolding encode_payload build_headers event_type
  message_for db subject envelope cache =
      let encoded = encode_payload Payload registry db subject (payload_of envelope.event) cache in
      (message_of envelope encoded.0, encoded.1)

  unfoldable pub receive :
      {Db : Type 0}
      → (EventEnvelope → Db → Db)
      → String
      → KafkaMessage
      → Db
      → Result (Unit {0}) × Db
  unfolding each_message decode_payload
  receive = each_message Payload (decode_payload Payload registry) number time_of as_event

  -- None of the texts of an envelope is empty, and its event is the one that its payload is read as.
  pub record IsNamed (envelope : EventEnvelope) : Type 0 where
    pub has_type : event_type envelope.event ≢ ""
    pub has_tenant : envelope.tenant_id ≢ ""
    pub has_id : envelope.event_id ≢ ""
    pub has_correlation : envelope.correlation_id ≢ ""
    pub is_of_its_type :
        as_event (event_type envelope.event) (payload_of envelope.event) ≡ envelope.event

  same_envelope :
      (envelope : EventEnvelope)
      → as_event (event_type envelope.event) (payload_of envelope.event) ≡ envelope.event
      → envelope_of Payload
          (decode_payload Payload registry)
          number
          time_of
          as_event
          (meta_of envelope, payload_of envelope.event)
        ≡ envelope
  same_envelope envelope typed =
      ap
        (λ t. record envelope {
          occurred_at = t;
          event = as_event (event_type envelope.event) (payload_of envelope.event);
        })
        (texts.time_of-iso envelope.occurred_at)
      ∙ ap (λ ev. record envelope { event = ev }) typed

  read_back :
      (new_id value : String) (envelope : EventEnvelope)
      → IsNamed envelope
      → decode_payload Payload registry value ≡ ok (payload_of envelope.event)
      → read_envelope
          (decode_payload Payload registry)
          number
          new_id
          (record { value = some value; headers = build_headers text_of (meta_of envelope) })
        ≡ ok (some (meta_of envelope, payload_of envelope.event))
  unfolding read_envelope
  read_back new_id value envelope named d =
      rw
        (
          parse_headers-build_headers text_of number new_id (meta_of envelope)
              (texts.text_of_some envelope.version) (texts.number-text_of envelope.version)
              named.has_type named.has_tenant named.has_id named.has_correlation,
          d,
        )
        refl

  -- An envelope that is sent, with a schema's id that is cached or not, is what the consumers'
  -- handler applies when the message comes, if its type, tenant, id and correlation are not empty, and
  -- its payload under its type makes its event.
  pub receive-message_for :
      {Db : Type 0} (apply : EventEnvelope → Db → Db) (new_id subject : String)
      (envelope : EventEnvelope) (schemas : registry.Db) (cache : IdCache) (message : KafkaMessage)
      (db : Db)
      → IsNamed envelope
      → (message_for schemas subject envelope cache).0 ≡ ok message
      → receive apply new_id message db ≡ (ok tt, apply envelope db)
  unfolding receive message_for each_message
  receive-message_for apply new_id subject envelope schemas cache message db named h =
      let encoded =
        encode_payload Payload registry schemas subject (payload_of envelope.event) cache in
      let (value, e, m) =
        bind_ok encoded.0
          (λ value.
            ok (record { value = some value; headers = build_headers text_of (meta_of envelope) }))
          message h in
      let d =
        decode_payload-encode_payload Payload registry schemas subject (payload_of envelope.event)
          cache value e in
      subst (λ x. receive apply new_id x db ≡ (ok tt, apply envelope db)) (ok-inj m)
        (rw (read_back new_id value envelope named d)
          (ap (λ x. (ok tt, apply x db)) (same_envelope envelope named.is_of_its_type)))
