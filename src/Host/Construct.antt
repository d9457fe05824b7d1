-- ===== src/Host/Construct.antt =====
-- `__init__` of `FrontierExecutionHost` in src/prompt_performance_engine/frontier_host.py, from the
-- models to the exact call matrix of the components: what it checks across models, components, routes
-- and slots, and the frozen data that it leaves.
use prompt_performance_engin.Prelude.Result.{Result, ok, err, ◌>>=◌, ◌>>◌, ensure}
use prompt_performance_engin.Prelude.{
  List, none, some, Bool, String, ℕ, Option, [], map, str_eq, ◌∷◌, false, if◌then◌else◌, length,
  select, suc, true, ◌&&◌, ◌++◌, all, any, contains, not, zero, ◌==◌, ltb,
}
use prompt_performance_engin.Host.Catalog.{
  CaseRoute, Model, Refusal, Budgeted, unplanned_component, read_models, seed_eq,
  unauthorized_model, wrong_matrix, distinct, read_components, unauthorized_purpose, read_routes,
  repeated_case, retry_too_high, or_refuse, wrong_route, bad_plan, seed_not_frozen, unit_changes,
  wrong_plan, read_each, read_model, read_component, read_route, item, named, sized, text_where,
  digest, seed_item, distinct_items,
}
use prompt_performance_engin.Host.Plan.{Slot, Authority, Frozen}
use prompt_performance_engin.Prelude.Value.{Value}
use prompt_performance_engin.Host.Schedule.{same_unit, read_plan, read_slots, read_slot, is_hash}
use prompt_performance_engin.Host.Attempt.{identifier}
use prompt_performance_engin.Host.Checking.{resource}
use prompt_performance_engin.Budget.Ledger.{is_identifier}
use prompt_performance_engin.Prelude.Text.{is_sha256}

unfoldable pub find_first : {A : Type 0} → (A → Bool) → List A → Option A
find_first test [] = none
find_first test (x ∷ xs) = if test x then some x else find_first test xs

unfoldable pub found_or : {A : Type 0} → Refusal → Option A → Result Refusal A
found_or e none = err e
found_or e (some a) = ok a

-- `route_by_case.get(case_id) == (route, authority_id)`
unfoldable pub is_routed : List CaseRoute → Slot → Bool
is_routed routes s = elim (find_first (λ (r : CaseRoute). str_eq r.case_id s.case_id) routes) [
  | none ↦ false
  | some r ↦ str_eq r.route s.route && str_eq r.authority_id s.route_authority_id
]

-- `seed in self._model_bindings[model_id]["allowed_seeds"]`
unfoldable pub is_seeded : List Model → Slot → Bool
is_seeded models s =
    elim (find_first (λ (m : Model). str_eq m.binding.model_id s.model_id) models) [
      | none ↦ false
      | some m ↦ any (seed_eq s.seed) m.allowed_seeds
    ]

-- Equality of the tuples `unit_binding`.
unfoldable pub same_binding : Slot → Slot → Bool
same_binding s t =
    str_eq s.case_id t.case_id
    && s.replicate_index == t.replicate_index
    && str_eq s.model_id t.model_id
    && str_eq s.purpose t.purpose
    && str_eq s.route t.route
    && str_eq s.route_authority_id t.route_authority_id
    && str_eq s.system_prompt_sha256 t.system_prompt_sha256
    && str_eq s.user_payload_sha256 t.user_payload_sha256
    && seed_eq s.seed t.seed

-- `unit_bindings.setdefault(unit_key, unit_binding) == unit_binding`, after the slots `seen`.
unfoldable pub agrees_with_first : List Slot → Slot → Bool
agrees_with_first seen s = elim (find_first (same_unit s) seen) [
  | none ↦ true
  | some t ↦ same_binding t s
]

unfoldable pub check_slot :
    List Model → List Budgeted → List CaseRoute → List Slot → Slot → Result Refusal Unit
check_slot models components routes seen s = do
  b ←
      found_or unplanned_component
        (find_first (λ (b : Budgeted). str_eq b.component.component_id s.component_id) components)
  ensure (contains s.model_id b.model_ids) unauthorized_model
  ensure (contains s.purpose b.purposes) unauthorized_purpose
  ensure (ltb s.retry_index b.attempts_per_unit) retry_too_high
  ensure (is_routed routes s) wrong_route
  ensure (is_seeded models s) seed_not_frozen
  ensure (agrees_with_first seen s) unit_changes

unfoldable pub check_slots :
    List Model → List Budgeted → List CaseRoute → List Slot → List Slot → Result Refusal Unit
check_slots models components routes seen [] = ok tt
check_slots models components routes seen (s ∷ ss) =
    check_slot models components routes seen s
    >> check_slots models components routes (seen ++ s ∷ []) ss

-- The first slot of each unit of a component: `component_units[component_id]`, in order.
unfoldable pub first_slots : String → List Slot → List Slot → List Slot
first_slots id seen [] = []
first_slots id seen (s ∷ ss) =
    let rest = first_slots id (s ∷ seen) ss in
    if str_eq s.component_id id && not (any (same_unit s) seen) then s ∷ rest else rest

abbrev pub below : ℕ → List ℕ
below zero = []
below (suc n) = n ∷ below n

-- The retry indexes of a unit are exactly those below the number of attempts.
unfoldable pub has_all_retries : ℕ → List Slot → Slot → Bool
has_all_retries attempts slots first =
    let indexes = map (λ (s : Slot). s.retry_index) (select (same_unit first) slots) in
    all (λ i. any (λ j. j == i) indexes) (below attempts) && all (λ j. ltb j attempts) indexes

abbrev pub same_case : Slot → Slot → Bool
same_case s t = str_eq s.case_id t.case_id && s.replicate_index == t.replicate_index

unfoldable pub check_matrix : List Slot → List Budgeted → Result Refusal Unit
check_matrix slots [] = ok tt
check_matrix slots (b ∷ bs) = do
  ensure
      (length (first_slots b.component.component_id [] slots) == b.unit_count
        && all (has_all_retries b.attempts_per_unit slots)
            (first_slots b.component.component_id [] slots))
      wrong_matrix
  ensure (distinct same_case (first_slots b.component.component_id [] slots)) repeated_case
  check_matrix slots bs

-- `str` of a plan's digest, which is a text or None.
unfoldable pub digest_text : Value → String
digest_text (Value.str s) = s
digest_text value = "None"

-- The campaign, the system, and what else the reports repeat, come from the preflight.
unfoldable pub construct :
    (Value → Option String) → Authority → Value → Value → Value → Value → Result Refusal Frozen
construct payload_sha256 authority models components case_routes execution_plan = do
  ms ← read_models models
  bs ← read_components (map (λ (m : Model). m.binding.model_id) ms) components
  routes ← read_routes case_routes
  plan ← or_refuse bad_plan (read_plan payload_sha256 execution_plan)
  ensure
      (str_eq plan.campaign_sha256 authority.campaign_sha256
        && str_eq plan.system_id authority.system_id)
      wrong_plan
  check_slots ms bs routes [] plan.slots
  check_matrix plan.slots bs
  ok (record {
    authority = record authority { execution_plan_sha256 = digest_text plan.plan_sha256 };
    slots = plan.slots;
    components = map (λ (b : Budgeted). b.component) bs;
    bindings = map (λ (m : Model). m.binding) ms;
  })

-- All of the constructor's code: a test names it to see through every part of it.
unfoldable pub construction : Unit {0}
unfolding construct read_models read_components read_routes read_plan read_slots read_slot read_each
    read_model read_component read_route item or_refuse named sized text_where digest distinct
    seed_item distinct_items find_first found_or is_routed is_seeded same_binding agrees_with_first
    check_slot check_slots first_slots has_all_retries check_matrix digest_text is_hash identifier
    resource is_identifier is_sha256
construction = tt
