-- ===== src/Triage.antt =====
-- The triage layer (triage/triage): a search over a language model's actions explains a failure.
pub mod Search
pub mod Actions
pub mod Objective
