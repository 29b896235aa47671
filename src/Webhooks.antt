-- ===== src/Webhooks.antt =====
-- services/src/services/razorpay_webhooks: the inbox of Razorpay's webhooks and what they do.
pub mod Events
pub mod Json
pub mod Mapping
pub mod Database
pub mod Dispatch
pub mod Inbox
pub mod Service
pub mod Promise
pub mod Refinement
pub mod Applied
pub mod Counted
pub mod Effects
mod Samples
