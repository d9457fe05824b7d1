-- ===== src/Contracts.antt =====
-- `contracts.py`: the request that an optimization starts from, and the plan of its candidates.
pub mod Request
pub mod RoundTrip
pub mod Strategies
mod Tests
