-- ===== src/Statistics.antt =====
-- Statistics over the outcomes of a campaign: src/prompt_performance_engine/frontier_statistics.py.
pub mod Floats
pub mod Pareto
pub mod ParetoLaws
pub mod Safety
pub mod Holm
pub mod HolmLaws
pub mod HolmDecisions
mod Tests
mod HolmTests
