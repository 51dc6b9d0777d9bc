-- ===== src/Event.antt =====
-- pkg/event: the CloudEvent a message carries, the message and its settlement, the correlation id.
pub mod CloudEvents
pub mod DeadLetter
pub mod Message
pub mod Correlation
pub mod Tracing
