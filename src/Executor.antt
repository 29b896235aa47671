-- ===== src/Executor.antt =====
-- services/src/services/executor: the simulated execution of plans against an in-memory ledger.
pub mod Models
pub mod Log
pub mod Webhooks
pub mod Simulation
pub mod Results
pub mod Runs
pub mod Engine
pub mod Deliveries
pub mod Shape
pub mod Ledger
pub mod Outcomes
pub mod Idempotency
pub mod Money
pub mod Batch
pub mod Samples
pub mod Summary
pub mod Totals
