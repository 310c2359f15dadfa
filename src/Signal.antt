-- ===== src/Signal.antt =====
-- src/signal: the coordinator, the actor that owns every connection.
pub mod Watchdog
pub mod Errors
pub mod Messages
pub mod Coordinator
pub mod World
