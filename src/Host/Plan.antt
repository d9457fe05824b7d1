-- ===== src/Host/Plan.antt =====
-- The frozen data of a `FrontierExecutionHost` and its state, as `__init__` leaves them, of
-- src/prompt_performance_engine/frontier_host.py. A dict is a list of records that have their key.
use prompt_performance_engin.Prelude.{
  ℕ, Bool, String, Option, none, some, List, [], ◌∷◌, str_eq, if◌then◌else◌,
}
use prompt_performance_engin.Prelude.Value.{Value, ℤ, obj, field, end}
use prompt_performance_engin.Budget.Amounts.{
  Amounts, calls, input_tokens, output_tokens, money_microunits, wall_clock_ms,
}
use prompt_performance_engin.Budget.Ledger.{Ledger, initial}

-- An entry of `_slots`.
pub record Slot : Type 0 where
  pub slot_id : String
  pub component_id : String
  pub unit_id : String
  pub case_id : String
  pub replicate_index : ℕ
  pub retry_index : ℕ
  pub model_id : String
  pub purpose : String
  pub route : String
  pub route_authority_id : String
  pub system_prompt_sha256 : String
  pub user_payload_sha256 : String
  pub seed : Option ℤ

-- An entry of `_component_maximums` and of `_component_capacities`.
pub record Component : Type 0 where
  pub component_id : String
  pub capacity : ℕ
  pub maximums : Amounts

-- An entry of `_model_bindings`.
pub record ModelBinding : Type 0 where
  pub model_id : String
  pub provider : String
  pub snapshot : String
  pub parameters_sha256 : String
  pub retry_policy_sha256 : String
  pub cache_policy_sha256 : String
  pub seeds_sha256 : String
  pub pricing_entry_sha256 : String
  pub price_snapshot_sha256 : String
  pub pricing_currency : String

-- The digests and names that every report repeats.
pub record Authority : Type 0 where
  pub campaign_sha256 : String
  pub preflight_sha256 : String
  pub evidence_expires_at : String
  pub execution_authority_receipt_sha256 : String
  pub system_id : String
  pub execution_plan_sha256 : String

-- What no method changes.
pub record Frozen : Type 0 where
  pub authority : Authority
  pub slots : List Slot
  pub components : List Component
  pub bindings : List ModelBinding

-- A record that `_build_report` makes; its fields from the slot, the binding of the model and the
-- host are in `slot`, `binding` and `authority`.
pub record Report : Type 0 where
  pub authority : Authority
  pub attempt_id : String
  pub slot : Slot
  pub binding : ModelBinding
  pub request_sha256 : String
  pub response_sha256 : Option String
  pub provider_status : String
  pub usage : Amounts
  pub receipt_sha256 : Option String
  pub usable : Bool
  pub failure_code : Option String

-- The fields that the methods change.
pub record HostState : Type 0 where
  pub ledger : Ledger
  pub used_slots : List String
  pub allocated : String → ℕ
  pub receipts : List String
  pub reports : List Report

-- What `__init__` leaves.
unfoldable pub fresh_host : Amounts → HostState
fresh_host ceilings = record {
  ledger = initial ceilings;
  used_slots = [];
  allocated = λ component_id. 0;
  receipts = [];
  reports = [];
}

-- `_slots.get(slot_id)`, `_component_maximums[component_id]` and `_model_bindings[model_id]`
unfoldable pub find_slot : String → List Slot → Option Slot
find_slot id [] = none
find_slot id (s ∷ ss) = if str_eq s.slot_id id then some s else find_slot id ss

unfoldable pub find_component : String → List Component → Option Component
find_component id [] = none
find_component id (c ∷ cs) = if str_eq c.component_id id then some c else find_component id cs

unfoldable pub find_binding : String → List ModelBinding → Option ModelBinding
find_binding id [] = none
find_binding id (b ∷ bs) = if str_eq b.model_id id then some b else find_binding id bs

-- A dict with the five axes as keys, as it is handed to the ledger.
unfoldable pub amounts_value : Amounts → Value
amounts_value a = obj (
    field "calls" (Value.int (ℤ.pos (a calls))) (
      field "input_tokens" (Value.int (ℤ.pos (a input_tokens))) (
        field "output_tokens" (Value.int (ℤ.pos (a output_tokens))) (
          field "money_microunits" (Value.int (ℤ.pos (a money_microunits)))
            (field "wall_clock_ms" (Value.int (ℤ.pos (a wall_clock_ms))) end)))))
