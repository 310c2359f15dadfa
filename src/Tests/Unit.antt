-- ===== src/Tests/Unit.antt =====
-- The program's own unit tests on the model: what each of them asserts, as a proposition, and that it holds.
mod Session
mod Handshakes
mod Refusals
mod Names
mod Answers
mod Pipelines
mod Restarts
