-- ===== src/Confirmation.antt =====
-- src/rra/transaction/confirmation.py, the two-step confirmation of a purchase.
pub mod Price
pub mod Manager
pub mod Steps
pub mod Invariant
pub mod Soundness
pub mod Cleanup
pub mod System
pub mod Outcomes
mod Tests
