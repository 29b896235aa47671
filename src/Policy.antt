-- ===== src/Policy.antt =====
-- services/src/services/policy: the compliance gate. Each child is about one file of the package,
-- or proves one group of facts about it.
pub mod Models
pub mod Consent
pub mod Cooldown
pub mod Facts
pub mod Rules
pub mod Registry
pub mod Severity
pub mod Merge
pub mod Evaluator
pub mod Engine
pub mod Winner
pub mod Conditions
pub mod Severities
pub mod Decisions
pub mod Window
pub mod Candidates
pub mod Retries
pub mod Channels
pub mod Outreach
pub mod Totals
pub mod Samples
