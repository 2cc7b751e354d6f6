-- ===== src/Tests.antt =====
-- Tests of the definitions, and the theorems at concrete inputs.
pub mod Memory
pub mod Data
mod Threads
mod Stores
mod Readers
mod Callers
mod Patches
