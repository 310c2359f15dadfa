-- ===== src/Signal/Coordinator.antt =====
-- src/signal/coordinator.rs: the actor that owns every connection.
pub mod Config
pub mod State
pub mod Connection
pub mod Policy
pub mod Terminate
pub mod Handlers
pub mod Loop
pub mod Cases
pub mod Legs
pub mod Accounts
pub mod Endings
pub mod Replies
pub mod Changes
pub mod Operations
pub mod Growth
pub mod Placements
pub mod Timing
pub mod Advancing
pub mod Deadlines
pub mod Lifecycle
pub mod Sweep
pub mod Deletion
pub mod Handshake
pub mod Branches
mod Tests
