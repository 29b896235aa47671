-- ===== src/Communications.antt =====
-- services/src/services/communications: the channel router, its rate limit and the mock providers.
pub mod Models
pub mod RateLimit
pub mod Router
pub mod Credit
pub mod Delivered
pub mod Sent
mod Samples
