-- ===== src/Messaging.antt =====
-- packages/messaging/src: an envelope on a topic, as an Avro payload with its metadata in headers.
pub mod Headers
pub mod Consume
pub mod Wire
pub mod Serde
