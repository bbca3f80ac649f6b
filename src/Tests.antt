-- ===== src/Tests.antt =====
-- Runs of the model on a small system, and the theorems at concrete inputs.
pub mod System
mod Room
mod Witnesses
mod Failures
mod Polling
mod Table
mod Quitting
mod Sessions
mod Prompts
mod Shutdown
mod Hellos
mod Gone
