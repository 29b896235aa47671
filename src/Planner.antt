-- ===== src/Planner.antt =====
-- services/src/services/planner: one strategy, its fallback and its channels for each case.
pub mod Models
pub mod Strategies
pub mod Gate
pub mod Channels
pub mod Contact
pub mod Timing
pub mod BusinessDays
pub mod Windows
pub mod Schedule
pub mod Slots
pub mod Soon
pub mod Engine
pub mod Values
pub mod Totals
pub mod Samples
