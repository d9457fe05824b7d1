-- ===== src/Budget.antt =====
-- `frontier_budget.py`: the fail-closed budget ledger of a campaign, by its parts.
pub mod Amounts
pub mod Ledger
pub mod Invariant
pub mod Calls
pub mod Soundness
pub mod Behaviour
pub mod Permanence
pub mod Snapshot
mod Tests
