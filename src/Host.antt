-- ===== src/Host.antt =====
-- `FrontierExecutionHost` of src/prompt_performance_engine/frontier_host.py: the attempts of a
-- campaign, each on its frozen slot and under the budget of a ledger.
pub mod Plan
pub mod Catalog
pub mod Schedule
pub mod Construct
pub mod ConstructLaws
pub mod Placed
pub mod Lookups
pub mod Attempt
pub mod Checking
pub mod Assess
pub mod Finish
pub mod Steps
pub mod Regions
pub mod Orderly
pub mod RegionLaws
pub mod RegionInvariant
pub mod Invariant
pub mod LedgerCalls
pub mod AssessLaws
pub mod BeginLaws
pub mod FinishLaws
pub mod Released
pub mod Output
pub mod Board
mod Tests
mod ConstructTests
mod RegionTests
pub mod Laws
pub mod Calls
