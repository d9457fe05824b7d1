-- ===== src/Host/Orderly.antt =====
-- What holds of a `FrontierExecutionHost` of src/prompt_performance_engine/frontier_host.py and its
-- threads between any two lock regions.
use prompt_performance_engin.Prelude.{
  ◌+◌, ◌≤◌, ◌≡◌, String, Option, none, List, [], ◌∷◌, All, count, ℕ, str_eq, ◌&&◌, some, true,
  false,
}
use prompt_performance_engin.Host.Plan.{Frozen, Slot, Component, find_component}
use prompt_performance_engin.Host.Regions.{
  Shared, Phase, claimed, receipted, settled, abandoned, refused, running,
}
use prompt_performance_engin.Budget.Invariant.{IsSound}
use prompt_performance_engin.Host.Finish.{add_receipt, is_none}
use prompt_performance_engin.Host.Invariant.{
  IsSized, reported_ids, reported_components, receipts_of, IsAuthorized,
}

abbrev pub slot_of : Phase → Slot
slot_of (claimed request c) = request.slot
slot_of (refused request) = request.slot
slot_of (running d) = d.request.slot
slot_of (receipted d a n) = d.request.slot
slot_of (settled r) = r.slot
slot_of (abandoned d a) = d.request.slot

abbrev pub attempt_in : Phase → String
attempt_in (settled r) = r.attempt_id
attempt_in (claimed request c) = request.slot.slot_id
attempt_in (refused request) = request.slot.slot_id
attempt_in (running d) = d.request.slot.slot_id
attempt_in (receipted d a n) = d.request.slot.slot_id
attempt_in (abandoned d a) = d.request.slot.slot_id

abbrev pub receipt_in : Phase → Option String
receipt_in (receipted d a n) = a.receipt
receipt_in (settled r) = r.receipt_sha256
receipt_in (abandoned d a) = a.receipt
receipt_in (claimed request c) = none
receipt_in (refused request) = none
receipt_in (running d) = none

-- The receipt, the attempt and the component of a thread, as lists to be counted in.
abbrev pub receipts_in : Phase → List String
receipts_in p = add_receipt (receipt_in p) []

abbrev pub attempts_in : Phase → List String
attempts_in p = attempt_in p ∷ []

abbrev pub components_in : Phase → List String
components_in p = (slot_of p).component_id ∷ []

-- How often a text is in the lists of the threads.
abbrev pub tally : (Phase → List String) → String → List Phase → ℕ
tally f id [] = 0
tally f id (p ∷ ps) = count id (f p) + tally f id ps

-- What a thread knows between its regions.
abbrev pub Holds : Phase → Type 0
Holds (claimed request c) = IsSized c.maximums
Holds (refused request) = Unit
Holds (running d) = IsSized d.component.maximums
Holds (receipted d a n) =
    (str_eq a.provider_status "success" && is_none a.failure_code) ≡ true
    → (a.provider_status ≡ "success") × (a.failure_code ≡ none) × (is_none a.receipt ≡ false)
Holds (settled r) = IsAuthorized r
Holds (abandoned d a) = Unit

-- `places`, `once`: a used slot has one attempt, with a thread or reported. `allocated`, `capacity`: a
-- component has as many attempts as are with threads or reported, and no more than it may have.
-- `receipts`, `unique`: the receipts are those of threads and reports, and no two have the same.
pub record IsOrderly (frozen : Frozen) (s : Shared) : Type 0 where
  pub sound : IsSound s.host.ledger
  pub places :
      (id : String)
      → count id s.host.used_slots
        ≡ tally attempts_in id s.threads + count id (reported_ids s.host.reports)
  pub once : (id : String) → count id s.host.used_slots ≤ 1
  pub allocated :
      (id : String)
      → s.host.allocated id
        ≡ tally components_in id s.threads + count id (reported_components s.host.reports)
  pub capacity :
      (id : String) (c : Component)
      → find_component id frozen.components ≡ some c
      → s.host.allocated id ≤ c.capacity
  pub receipts :
      (r : String)
      → count r s.host.receipts
        ≡ tally receipts_in r s.threads + count r (receipts_of s.host.reports)
  pub unique : (r : String) → count r s.host.receipts ≤ 1
  pub holds : All Holds s.threads
  pub authorized : All IsAuthorized s.host.reports
