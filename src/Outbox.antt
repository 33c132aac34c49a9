-- ===== src/Outbox.antt =====
-- apps/outbox-poller/src/poller.ts and packages/messaging/src/publish.ts: the events that wait in the
-- outbox, to the topics. The registry's encoding and the producer's `send` are parameters; both may
-- throw. A message's headers are the envelope less its payload.
pub mod Delivery
use flash_bite.Prelude.{
  ℕ, zero, suc, String, ◌<>◌, Bool, true, false, List, [], ◌∷◌, filter, find, Option, none, some,
  Result, ok, throw, error, ◌==◌, if◌then◌else◌, map, length, ◌>>=◌, ◌>>◌,
}
use flash_bite.Contracts.{Event, EventEnvelope, Topic, event_type}
use flash_bite.Shared.EventDb.{EventDb, OutboxRow, OutboxStatus}

abbrev topic_name : Topic → String
topic_name Topic.order_events = "order-events"
topic_name Topic.telemetry_streams = "telemetry-streams"
topic_name Topic.dispatch_events = "dispatch-events"

pub record Subject : Type 0 where
  pub event_type : String
  pub record_name : String

abbrev subject : String → String → Subject
subject event_type record_name = record { event_type = event_type; record_name = record_name }

unfoldable pub subjects : List Subject
subjects =
    subject "OrderPlaced" "OrderPlaced"
    ∷ subject "OrderAccepted" "OrderAccepted"
    ∷ subject "OrderCancelled" "OrderCancelled"
    ∷ subject "DriverTelemetryStreamed" "DriverTelemetry"
    ∷ subject "DriverOffered" "DriverOffered"
    ∷ subject "DispatchAccepted" "DispatchAccepted"
    ∷ subject "OrderPickedUp" "OrderPickedUp"
    ∷ subject "OrderDelivered" "OrderDelivered"
    ∷ subject "DispatchFailed" "DispatchFailed"
    ∷ []

unfoldable pub subject_for : Topic → String → String
subject_for topic record_name =
    topic_name topic <> "-" <> "com.flashbite.events" <> "." <> record_name

-- a message to a topic: its key, its encoded value, and its headers
pub record Message : Type 0 where
  pub topic : Topic
  pub key : String
  pub value : String
  pub headers : EventEnvelope

pub record Broker : Type 0 where
  pub encode : String → Event → Result String
  pub send : Message → Result (Unit {0})

module _ (broker : Broker) where
  open broker use {encode, send}

  abbrev sending : Topic → String → EventEnvelope → Result String → Result (Unit {0})
  sending topic key envelope (throw e) = throw e
  sending topic key envelope (ok value) =
      send (record { topic = topic; key = key; value = value; headers = envelope })

  unfoldable pub publish_envelope : Topic → String → EventEnvelope → Result (Unit {0})
  unfolding subjects subject_for event_type
  publish_envelope topic key envelope =
      elim (find (λ s. s.event_type == event_type envelope.event) subjects) [
        | none ↦ throw (error ("No Avro subject for eventType " <> event_type envelope.event))
        | some entry ↦
            sending topic key envelope (encode (subject_for topic entry.record_name) envelope.event)
      ]

abbrev pub is_pending : OutboxRow → Bool
is_pending row = elim row.status [ OutboxStatus.pending ↦ true | OutboxStatus.sent ↦ false ]

abbrev pub take {ℓ} : {A : Type ℓ} → ℕ → List A → List A
take zero xs = []
take (suc n) [] = []
take (suc n) (x ∷ xs) = x ∷ take n xs

-- What a poll has done: how it ended, the tables, and the rows that it published, in their order.
pub record Poll (Db : Type 0) : Type 0 where
  pub ended : Result (Unit {0})
  pub db : Db
  pub published : List OutboxRow

module _ (broker : Broker) (pg : EventDb) where
  open pg use {Db, outbox, update_outbox}

  -- the loop over the rows: a row that cannot be published ends it
  unfoldable pub publish_rows : List OutboxRow → Db → Poll Db
  unfolding publish_envelope
  publish_rows [] db = record { ended = ok tt; db = db; published = [] }
  publish_rows (row ∷ rows) db =
      let rest = publish_rows rows (update_outbox db row.id OutboxStatus.sent) in
      elim (publish_envelope broker row.topic row.partition_key row.payload) [
        | throw e ↦ record { ended = throw e; db = db; published = [] }
        | ok _ ↦ record rest { published = row ∷ rest.published }
      ]

  unfoldable pub poll_once : Db → Result ℕ × Poll Db
  unfolding publish_rows
  poll_once db =
      let pending = take 100 (filter is_pending (outbox db)) in
      let poll = publish_rows pending db in (poll.ended >>= λ _. ok (length pending), poll)
