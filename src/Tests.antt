-- ===== src/Tests.antt =====
-- The theorems at concrete inputs.
mod Samples
mod Checks
mod Paths
mod Routing
mod Runs
mod Loading
mod Machine
mod Commands
mod Documents
