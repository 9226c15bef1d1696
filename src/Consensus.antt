-- ===== src/Consensus.antt =====
-- crates/blockchain-core/src/consensus: who may produce blocks, and when blocks are final.
pub mod ValidatorSet
pub mod ProofOfAuthority
pub mod Finality
pub mod Engine
