-- ===== src/Impact.antt =====
-- The pre-change advisory (impact/impact): a Change is graded from the platform's evidence.
pub mod Change
pub mod Capture
pub mod Radius
pub mod SpecGraph
pub mod Criticality
pub mod Evidence
pub mod Signals
pub mod History
pub mod BlastFactor
pub mod CriticalFactor
pub mod Rubric
pub mod Plan
pub mod Tests
