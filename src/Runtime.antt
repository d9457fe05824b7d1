-- ===== src/Runtime.antt =====
-- `runtime.py`, `parser.py` and the parts of `adapters.py` that they use: an optimization from the
-- request to the artifact.
pub mod Parser
pub mod Adapter
pub mod Mock
pub mod Usage
pub mod Reply
pub mod Candidates
pub mod Selection
pub mod Request
pub mod Optimize
pub mod CandidateLaws
pub mod OptimizeLaws
pub mod RequestLaws
mod Tests
