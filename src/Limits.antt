-- ===== src/Limits.antt =====
-- The rate limiter of src/rra/api/rate_limiter.py, with its counters in memory.
mod Backend
mod Limiters
mod Requests
mod Counting
mod Window
mod Bucket
mod Burst
mod Chain
mod Minute
mod Tests
