-- ===== src/Diagnosis.antt =====
-- services/src/services/diagnosis: features of a failed payment, the rules on them, and the scores.
pub mod Models
pub mod Calendar
pub mod Features
pub mod Rules
pub mod Scorer
pub mod Engine
pub mod Primary
pub mod Weights
pub mod Scores
pub mod Samples
