-- ===== src/Tests.antt =====
-- Concrete inputs: small programs, words, indices and traces.
pub mod Machine
pub mod Words
pub mod Index
pub mod Run
pub mod Memory
pub mod Snapshots
pub mod Input
pub mod Verdicts
pub mod Artifacts
pub mod Indexed
pub mod Json
