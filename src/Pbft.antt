-- ===== src/Pbft.antt =====
-- src/pbft.rs: the consensus engine.
pub mod Config
pub mod State
pub mod Signing
pub mod Advance
pub mod Normal
pub mod Maintenance
pub mod Process
pub mod Histories
pub mod Quiet
pub mod Refused
pub mod Invariant
pub mod Safety
pub mod Frame
pub mod Gathered
pub mod Collection
pub mod Timeout
pub mod OwnSignature
pub mod Views
pub mod Proposals
pub mod Ballots
pub mod Votes
pub mod Cluster
pub mod Progress
pub mod SignedText
pub mod Quorum
