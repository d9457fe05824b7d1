-- ===== src/Evaluation.antt =====
-- `evaluation.py`: matched evaluation of two prompts by hard checks and blind judges, by its parts.
pub mod Case
pub mod Judging
pub mod Forbidden
pub mod HardChecks
pub mod HardLaws
pub mod Run
pub mod RunLaws
pub mod Suite
pub mod SuiteLaws
mod Tests
