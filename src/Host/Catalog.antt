-- ===== src/Host/Catalog.antt =====
-- The models, components and case routes that `__init__` of `FrontierExecutionHost` in
-- src/prompt_performance_engine/frontier_host.py reads and checks.
use prompt_performance_engin.Prelude.Value.{Value, ℤ, Fields, obj, arr, keys, get, elements}
use prompt_performance_engin.Prelude.Result.{
  Result, ok, err, ◌>>=◌, ◌>>◌, ensure, raise_if, traverse,
}
use prompt_performance_engin.Prelude.{
  List, Bool, Option, String, is_empty, [], if◌then◌else◌, none, not, true, ℕ, ◌==◌, ◌∷◌, any,
  contains, false, leb, some, ◌&&◌, map, str_eq, ltb, ◌++◌, ◌*◌,
}
use prompt_performance_engin.Host.Plan.{Component, ModelBinding}
use prompt_performance_engin.Prelude.Dict.{same_set, subset}
use prompt_performance_engin.Host.Attempt.{identifier}
use prompt_performance_engin.Prelude.Text.{is_sha256}
use prompt_performance_engin.Host.Checking.{resource}
use prompt_performance_engin.Budget.Amounts.{max_budget_value, tabulate}
use prompt_performance_engin.Budget.Ledger.{is_identifier}

-- What `__init__` raises for these arguments.
pub data Refusal : Type 0 where
  no_models bad_model incomplete_model bad_field bad_model_digest bad_seeds repeated_model : Refusal
  components_not_array bad_component_fields no_capacity repeated_component : Refusal
  bad_model_ids bad_purposes no_components : Refusal
  no_routes bad_route repeated_route : Refusal
  bad_plan wrong_plan unplanned_component unauthorized_model unauthorized_purpose retry_too_high :
      Refusal
  wrong_route seed_not_frozen unit_changes wrong_matrix repeated_case : Refusal

-- `fs.get(name)`
unfoldable pub item : String → Fields → Value
item name fs = elim (get name fs) [ none ↦ Value.null | some v ↦ v ]

unfoldable pub or_refuse : {E A : Type 0} → Refusal → Result E A → Result Refusal A
or_refuse e (ok a) = ok a
or_refuse e (err x) = err e

-- `_identifier` and `_resource`, in `__init__`
unfoldable pub named : String → Fields → Result Refusal String
named name fs = or_refuse bad_field (identifier (item name fs))

unfoldable pub sized : String → Fields → Result Refusal ℕ
sized name fs = or_refuse bad_field (resource (item name fs))

unfoldable pub text_where : (String → Bool) → Refusal → Value → Result Refusal String
text_where test e (Value.str s) = if test s then ok s else err e
text_where test e value = err e

unfoldable pub digest : Refusal → String → Fields → Result Refusal String
digest e name fs = text_where is_sha256 e (item name fs)

-- `len(xs) == len(set(xs))`
unfoldable pub distinct {ℓ} : {A : Type ℓ} → (A → A → Bool) → List A → Bool
distinct eq [] = true
distinct eq (x ∷ xs) = not (any (eq x) xs) && distinct eq xs

abbrev pub int_same : ℤ → ℤ → Bool
int_same (ℤ.pos m) (ℤ.pos n) = m == n
int_same (ℤ.negsuc m) (ℤ.negsuc n) = m == n
int_same a b = false

abbrev pub seed_eq : Option ℤ → Option ℤ → Bool
seed_eq none none = true
seed_eq (some a) (some b) = int_same a b
seed_eq a b = false

-- None, or an integer between -MAX_RESOURCE_VALUE and MAX_RESOURCE_VALUE.
unfoldable pub seed_item : Refusal → Value → Result Refusal (Option ℤ)
seed_item e Value.null = ok none
seed_item e (Value.int (ℤ.pos n)) = if leb n max_budget_value then ok (some (ℤ.pos n)) else err e
seed_item e (Value.int (ℤ.negsuc n)) =
    if ltb n max_budget_value then ok (some (ℤ.negsuc n)) else err e
seed_item e value = err e

-- A list that is not empty, of items that are read one by one and differ. An item that has no hash
-- is refused by the error of `set` in the source.
unfoldable pub distinct_items :
    {A : Type 0}
    → (A → A → Bool)
    → (Value → Result Refusal A)
    → Refusal
    → Value
    → Result Refusal (List A)
distinct_items eq read e (arr items) = do
  xs ← traverse read (elements items)
  ensure (not (is_empty xs) && distinct eq xs) e
  ok xs
distinct_items eq read e value = err e

-- An entry of `_model_bindings`.
pub record Model : Type 0 where
  pub binding : ModelBinding
  pub allowed_seeds : List (Option ℤ)

-- `MODEL_EXECUTION_FIELDS`
abbrev pub model_execution_fields : List String
model_execution_fields =
    "model_id" ∷ "provider" ∷ "snapshot" ∷ "parameters_sha256" ∷ "retry_policy_sha256"
    ∷ "cache_policy_sha256" ∷ "seeds_sha256" ∷ "allowed_seeds" ∷ "pricing_entry_sha256"
    ∷ "price_snapshot_sha256" ∷ "pricing_currency" ∷ []

unfoldable pub read_model : List String → Value → Result Refusal Model
read_model known (obj fs) = do
  ensure (subset model_execution_fields (keys fs)) incomplete_model
  model_id ← named "model_id" fs
  provider ← named "provider" fs
  snapshot ← named "snapshot" fs
  parameters ← digest bad_model_digest "parameters_sha256" fs
  retry_policy ← digest bad_model_digest "retry_policy_sha256" fs
  cache_policy ← digest bad_model_digest "cache_policy_sha256" fs
  seeds ← digest bad_model_digest "seeds_sha256" fs
  pricing_entry ← digest bad_model_digest "pricing_entry_sha256" fs
  price_snapshot ← digest bad_model_digest "price_snapshot_sha256" fs
  currency ← named "pricing_currency" fs
  allowed_seeds ← distinct_items seed_eq (seed_item bad_seeds) bad_seeds (item "allowed_seeds" fs)
  raise_if (contains model_id known) repeated_model
  ok (record {
    binding = record {
      model_id = model_id;
      provider = provider;
      snapshot = snapshot;
      parameters_sha256 = parameters;
      retry_policy_sha256 = retry_policy;
      cache_policy_sha256 = cache_policy;
      seeds_sha256 = seeds;
      pricing_entry_sha256 = pricing_entry;
      price_snapshot_sha256 = price_snapshot;
      pricing_currency = currency;
    };
    allowed_seeds = allowed_seeds;
  })
read_model known value = err bad_model

-- A loop that reads items; reading one, the keys of those before are known.
unfoldable pub read_each :
    {A : Type 0}
    → (A → String)
    → (List String → Value → Result Refusal A)
    → List A
    → List Value
    → Result Refusal (List A)
read_each key read known [] = ok known
read_each key read known (v ∷ vs) = do
  x ← read (map key known) v
  read_each key read (known ++ x ∷ []) vs

unfoldable pub read_models : Value → Result Refusal (List Model)
read_models (arr items) = do
  raise_if (is_empty (elements items)) no_models
  read_each (λ (m : Model). m.binding.model_id) read_model [] (elements items)
read_models value = err no_models

-- A component with what `__init__` keeps of it.
pub record Budgeted : Type 0 where
  pub component : Component
  pub unit_count : ℕ
  pub attempts_per_unit : ℕ
  pub model_ids : List String
  pub purposes : List String

abbrev pub component_fields : List String
component_fields =
    "component_id" ∷ "role" ∷ "unit_count" ∷ "attempts_per_unit" ∷ "max_input_tokens_per_attempt"
    ∷ "max_output_tokens_per_attempt" ∷ "max_money_microunits_per_attempt"
    ∷ "max_wall_clock_ms_per_attempt" ∷ "model_ids" ∷ "purposes" ∷ []

-- `_component_maximums`, `_attempt_capacity` and what is read of the component after them.
unfoldable pub read_component : List String → List String → Value → Result Refusal Budgeted
read_component models known (obj fs) = do
  ensure (same_set (keys fs) component_fields) bad_component_fields
  component_id ← named "component_id" fs
  role ← named "role" fs
  unit_count ← sized "unit_count" fs
  attempts ← sized "attempts_per_unit" fs
  ensure (not (unit_count == 0) && not (attempts == 0)) no_capacity
  i ← sized "max_input_tokens_per_attempt" fs
  o ← sized "max_output_tokens_per_attempt" fs
  m ← sized "max_money_microunits_per_attempt" fs
  w ← sized "max_wall_clock_ms_per_attempt" fs
  raise_if (contains component_id known) repeated_component
  model_ids ←
      distinct_items str_eq (text_where (λ s. contains s models) bad_model_ids) bad_model_ids
        (item "model_ids" fs)
  purposes ←
      distinct_items str_eq (text_where is_identifier bad_purposes) bad_purposes
        (item "purposes" fs)
  ok (record {
    component = record {
      component_id = component_id;
      capacity = unit_count * attempts;
      maximums = tabulate 1 i o m w;
    };
    unit_count = unit_count;
    attempts_per_unit = attempts;
    model_ids = model_ids;
    purposes = purposes;
  })
read_component models known value = err bad_component_fields

unfoldable pub read_components : List String → Value → Result Refusal (List Budgeted)
read_components models (arr items) = do
  components ←
      read_each (λ (b : Budgeted). b.component.component_id) (read_component models) []
        (elements items)
  raise_if (is_empty components) no_components
  ok components
read_components models value = err components_not_array

pub record CaseRoute : Type 0 where
  pub case_id : String
  pub route : String
  pub authority_id : String

unfoldable pub read_route : List String → Value → Result Refusal CaseRoute
read_route known (obj fs) = do
  ensure (same_set (keys fs) ("case_id" ∷ "route" ∷ "authority_id" ∷ [])) bad_route
  case_id ← named "case_id" fs
  route ← named "route" fs
  authority_id ← named "authority_id" fs
  raise_if (contains case_id known) repeated_route
  ok (record { case_id = case_id; route = route; authority_id = authority_id })
read_route known value = err bad_route

unfoldable pub read_routes : Value → Result Refusal (List CaseRoute)
read_routes (arr items) = do
  raise_if (is_empty (elements items)) no_routes
  read_each (λ (r : CaseRoute). r.case_id) read_route [] (elements items)
read_routes value = err no_routes
