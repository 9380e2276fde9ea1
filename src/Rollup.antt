-- ===== src/Rollup.antt =====
-- src/rra/l3, the rollup that orders disputes and commits them in batches.
pub mod Bytes
pub mod Merkle
pub mod MerkleProof
pub mod Batch
pub mod Processing
pub mod Settlement
pub mod Conservation
pub mod Calls
pub mod Finality
mod Rejection
pub mod Sequencer
pub mod Block
pub mod Selection
pub mod Production
pub mod Progress
pub mod History
pub mod Custody
pub mod Ledger
pub mod Payload
pub mod SortedQueue
mod Tests
mod SequencerTests
