-- ===== src/RateLimit.antt =====
-- The rate limiter of the server (apps/server/src/api/rate-limit).
pub mod Memory
pub mod Bounds
pub mod Eviction
pub mod Window
pub mod Refinement
pub mod Limiter
mod Config
mod Kept
mod Outage
pub mod Budget
mod Examples
