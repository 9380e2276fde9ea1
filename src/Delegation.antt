-- ===== src/Delegation.antt =====
-- src/rra/auth/delegation.py, what a user lets an agent do and spend.
pub mod Scope
pub mod Manager
pub mod Limits
pub mod System
mod Tests
