-- ===== src/Treasury.antt =====
-- src/rra/treasury/coordinator.py, the coordination of disputes between treasuries.
pub mod Types
pub mod Registry
pub mod Disputes
pub mod Voting
pub mod Resolution
pub mod Queries
pub mod Weights
pub mod Invariant
pub mod Opening
pub mod Subscript
pub mod Soundness
pub mod Settlement
pub mod System
pub mod Lifecycle
pub mod Payout
pub mod Winner
pub mod Votes
pub mod Signers
pub mod Staking
pub mod Mediation
mod Tests
mod SignerTests
