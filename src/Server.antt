-- ===== src/Server.antt =====
-- server/src: the metrics, the rate limiter, the allocation of addresses and the UDP relay.
pub mod Metrics
pub mod RateLimiter
pub mod WireGuard
pub mod State
pub mod Api
pub mod Relay
pub mod Restoring
