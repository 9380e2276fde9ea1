-- ===== src/Resilience.antt =====
-- src/rra/integration/network_resilience.py, calls of a service that may fail.
pub mod Breaker
pub mod Gate
pub mod Client
pub mod Attempts
pub mod Trials
pub mod Retry
mod Tests
