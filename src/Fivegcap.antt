-- ===== src/Fivegcap.antt =====
-- The capture analyzer (5gcap/fivegcap): the decoded messages and what is computed from them.
pub mod Messages
pub mod Flow
pub mod Correlate
pub mod Pairing
