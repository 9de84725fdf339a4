-- ===== src/Threads.antt =====
-- Project2: the user-level thread library, on one CPU.
pub mod State
pub mod Calls
pub mod Places
pub mod Invariant
pub mod Runs
pub mod Programs
pub mod Exclusion
pub mod Waking
mod Examples
pub mod Located
