-- ===== src/Core.antt =====
-- The package `purevm/core`.
pub mod Word
pub mod Opcode
pub mod Text
pub mod Action
pub mod State
pub mod Encoding
pub mod Json
pub mod Snapshot
pub mod Machine
pub mod Operators
pub mod Gas
pub mod Instructions
pub mod Step
pub mod Index
