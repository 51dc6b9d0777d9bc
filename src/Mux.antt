-- ===== src/Mux.antt =====
-- pkg/eventmux: the router. `Types` has its data, `Effects` the monad in which it handles a message.
pub mod Types
pub mod Store
pub mod Effects
pub mod Registration
pub mod Failure
pub mod ResultEvent
pub mod Handle
