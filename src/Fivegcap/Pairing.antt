-- ===== src/Fivegcap/Pairing.antt =====
-- The pairing of requests with responses: `pair_procedures` of pfcp.py and of sbi.py.
pub mod N4
pub mod Sbi
