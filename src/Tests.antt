-- ===== src/Tests.antt =====
-- Runs of the smaller parts, and the theorems at them.
mod Sdp
mod Media
mod Failures
mod Restart
mod Reports
mod Http
mod Bin
mod Branches
mod Life
mod Start
mod Cycle
mod Clock
mod Unit
