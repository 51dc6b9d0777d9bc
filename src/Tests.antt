-- ===== src/Tests.antt =====
-- Concrete inputs: an event type that has the promised laws, small routers, and the theorems at them.
mod Sdk
mod Router
mod Messages
mod Wiring
mod Services
mod Failures
mod Transports
mod Brokers
mod Codec
mod RoundTrips
mod Traces
mod Coupled
mod Queues
mod Copies
mod Requests
