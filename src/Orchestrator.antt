-- ===== src/Orchestrator.antt =====
-- services/src/services/action_orchestrator: gates, lifecycle and dispatch of one action.
pub mod Models
pub mod Gates
pub mod Run
pub mod Start
pub mod Progress
pub mod Blocked
pub mod Finished
pub mod Samples
pub mod Due
