-- ===== src/Sharing.antt =====
-- src/rra/crypto/shamir.py and src/rra/privacy/secret_sharing.py, secret sharing with a threshold.
pub mod Ring
pub mod Interpolation
pub mod Modular
pub mod Arithmetic
pub mod Shamir
pub mod Inverses
pub mod Products
pub mod Lagrange
pub mod Split
pub mod Recovery
pub mod Masks
pub mod Secrecy
pub mod Escrow
pub mod Threshold
pub mod Numbers
pub mod Custody
mod Tests
