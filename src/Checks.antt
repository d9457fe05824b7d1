-- ===== src/Checks.antt =====
-- Deterministic checks of one output: the record that every check returns, and the case checks.
pub mod Record
pub mod CaseChecks
