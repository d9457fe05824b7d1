-- ===== src/Host/Schedule.antt =====
-- `validate_frontier_execution_plan` of src/prompt_performance_engine/frontier_host.py: a plan without
-- failures, and its slots. `__init__` refuses a plan with any failure by one error, so which failures
-- a plan has is left out.
use prompt_performance_engin.Prelude.Value.{Value, obj, arr, keys, elements}
use prompt_performance_engin.Prelude.Result.{
  Result, ok, err, ◌>>=◌, ◌>>◌, ensure, raise_if, traverse,
}
use prompt_performance_engin.Prelude.{
  none, some, List, Option, String, Bool, is_empty, ◌∷◌, [], str_eq, true, ◌&&◌, some, ◌==◌, false,
}
use prompt_performance_engin.Host.Catalog.{
  Refusal, bad_plan, distinct, named, text_where, digest, item, sized, seed_item,
}
use prompt_performance_engin.Host.Plan.{Slot}
use prompt_performance_engin.Prelude.Dict.{same_set}

-- `EXECUTION_SLOT_FIELDS`
abbrev pub execution_slot_fields : List String
execution_slot_fields =
    "slot_id" ∷ "component_id" ∷ "unit_id" ∷ "case_id" ∷ "replicate_index" ∷ "retry_index"
    ∷ "model_id" ∷ "purpose" ∷ "route" ∷ "route_authority_id" ∷ "system_prompt_sha256"
    ∷ "user_payload_sha256" ∷ "seed" ∷ []

-- `EXECUTION_PLAN_FIELDS`
abbrev pub execution_plan_fields : List String
execution_plan_fields =
    "schema_version" ∷ "plan_id" ∷ "campaign_sha256" ∷ "system_id" ∷ "slots" ∷ "plan_sha256" ∷ []

unfoldable pub read_slot : Value → Result Refusal Slot
read_slot (obj fs) = do
  ensure (same_set (keys fs) execution_slot_fields) bad_plan
  slot_id ← named "slot_id" fs
  component_id ← named "component_id" fs
  unit_id ← named "unit_id" fs
  case_id ← named "case_id" fs
  model_id ← named "model_id" fs
  purpose ← named "purpose" fs
  route ← named "route" fs
  route_authority_id ← named "route_authority_id" fs
  system_prompt ← digest bad_plan "system_prompt_sha256" fs
  user_payload ← digest bad_plan "user_payload_sha256" fs
  replicate_index ← sized "replicate_index" fs
  retry_index ← sized "retry_index" fs
  seed ← seed_item bad_plan (item "seed" fs)
  ok (record {
    slot_id = slot_id;
    component_id = component_id;
    unit_id = unit_id;
    case_id = case_id;
    replicate_index = replicate_index;
    retry_index = retry_index;
    model_id = model_id;
    purpose = purpose;
    route = route;
    route_authority_id = route_authority_id;
    system_prompt_sha256 = system_prompt;
    user_payload_sha256 = user_payload;
    seed = seed;
  })
read_slot value = err bad_plan

abbrev pub same_slot_id : Slot → Slot → Bool
same_slot_id s t = str_eq s.slot_id t.slot_id

abbrev pub same_unit : Slot → Slot → Bool
same_unit s t = str_eq s.component_id t.component_id && str_eq s.unit_id t.unit_id

abbrev pub same_try : Slot → Slot → Bool
same_try s t = same_unit s t && s.retry_index == t.retry_index

-- What `__init__` uses of a plan without failures.
pub record Plan : Type 0 where
  pub campaign_sha256 : String
  pub system_id : String
  pub slots : List Slot
  pub plan_sha256 : Value

unfoldable pub read_slots : Value → Result Refusal (List Slot)
read_slots (arr items) = do
  raise_if (is_empty (elements items)) bad_plan
  slots ← traverse read_slot (elements items)
  ensure (distinct same_slot_id slots && distinct same_try slots) bad_plan
  ok slots
read_slots value = err bad_plan

-- Equality with what `_safe_payload_hash` gives, None where it fails.
unfoldable pub is_hash : Option String → Value → Bool
is_hash none Value.null = true
is_hash (some s) (Value.str t) = str_eq s t
is_hash o value = false

-- `payload_sha256` is `_safe_payload_hash` of the plan without its own digest.
unfoldable pub read_plan : (Value → Option String) → Value → Result Refusal Plan
read_plan payload_sha256 (obj fs) = do
  ensure (same_set (keys fs) execution_plan_fields) bad_plan
  version ← text_where (λ s. str_eq s "1.0.0") bad_plan (item "schema_version" fs)
  plan_id ← named "plan_id" fs
  system_id ← named "system_id" fs
  campaign ← digest bad_plan "campaign_sha256" fs
  slots ← read_slots (item "slots" fs)
  ensure (is_hash (payload_sha256 (obj fs)) (item "plan_sha256" fs)) bad_plan
  ok (record {
    campaign_sha256 = campaign;
    system_id = system_id;
    slots = slots;
    plan_sha256 = item "plan_sha256" fs;
  })
read_plan payload_sha256 value = err bad_plan
