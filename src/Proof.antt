-- ===== src/Proof.antt =====
-- The package `purevm/proof`.
pub mod Types
pub mod Dispute
pub mod Merkle
pub mod Diff
pub mod Transition
pub mod Predict
