-- ===== src/Host/Placed.antt =====
-- A slot of a constructed host has what an attempt on it needs, and a constructed host is planned.
use prompt_performance_engin.Prelude.Result.{
  ok, ensure, raise_if, returned_by, last_of_two, ok_eq, ensure-ok,
}
use prompt_performance_engin.Prelude.{
  List, none, some, String, All, Option, contains, map, ◌≡◌, ap, str_eq, true, ◌∷◌, Bool-cases, inl,
  inr, sym, arith, ◌∙◌, [], subst, refl, eq_iff, ◌++◌, is_empty,
}
use prompt_performance_engin.Host.Catalog.{
  Model, Budgeted, Refusal, CaseRoute, sized, unplanned_component, unauthorized_model,
  read_components, read_each, read_component, read_models, read_routes, no_components, or_refuse,
  bad_plan, wrong_plan,
}
use prompt_performance_engin.Host.Construct.{
  find_first, found_or, check_slot, check_slots, construct, check_matrix,
}
use prompt_performance_engin.Host.Plan.{
  Component, find_binding, ModelBinding, find_component, Slot, Authority, Frozen,
}
use prompt_performance_engin.Host.ConstructLaws.{IsRead, read_each-All, read_component-IsRead}
use prompt_performance_engin.Host.Invariant.{IsSized, IsPlanned}
use prompt_performance_engin.Prelude.Value.{Value, arr, elements}
use prompt_performance_engin.Host.Schedule.{read_plan}

-- What an attempt looks up for a slot is there.
abbrev pub IsPlaced : List Component → List ModelBinding → Slot → Type 0
IsPlaced components bindings s =
    ((c : Component) × (find_component s.component_id components ≡ some c) × IsSized c.maximums)
    × ((b : ModelBinding) × (find_binding s.model_id bindings ≡ some b))

found_or-ok : {A : Type 0} (e : Refusal) (o : Option A) (a : A) → found_or e o ≡ ok a → o ≡ some a
unfolding found_or
found_or-ok e none a h = cc
found_or-ok e (some b) a h = ap (λ x. some x) (ok_eq h)

-- A component that was found while the slots were checked is found by `execute_attempt`.
found_component :
    (models : List String) (id : String) (bs : List Budgeted) (b : Budgeted)
    → All (IsRead models) bs
    → find_first (λ (b : Budgeted). str_eq b.component.component_id id) bs ≡ some b
    → (find_component id (map (λ (b : Budgeted). b.component) bs) ≡ some b.component)
      × IsRead models b
unfolding find_first find_component
found_component models id [] b p h = cc
found_component models id (k ∷ ks) b (p, ps) h =
    elim (Bool-cases (str_eq k.component.component_id id)) [
      | inl e ↦
          let same : k ≡ b = some_budgeted (sym (rw e refl) ∙ h) in
          (rw e (ap (λ (x : Budgeted). some x.component) same), subst (IsRead models) same p)
      | inr e ↦
          let (found, read) = found_component models id ks b ps (sym (rw e refl) ∙ h) in
          (rw e found, read)
    ]
  where
    some_budgeted : {a b : Budgeted} → ◌≡◌ {A = Option Budgeted} (some a) (some b) → a ≡ b
    some_budgeted h = cc

found_binding :
    (id : String) (ms : List Model)
    → contains id (map (λ (m : Model). m.binding.model_id) ms) ≡ true
    → (b : ModelBinding) × (find_binding id (map (λ (m : Model). m.binding) ms) ≡ some b)
unfolding find_binding
found_binding id [] h = cc
found_binding id (m ∷ ms) h = elim (Bool-cases (str_eq m.binding.model_id id)) [
  | inl e ↦ (m.binding, rw e refl)
  | inr e ↦ let (b, found) = found_binding id ms (ground (arith, h, e)) in (b, rw e found)
]

member :
    (P : String → Type 0) (x : String) (xs : List String) → All P xs → contains x xs ≡ true → P x
member P x [] p h = cc
member P x (y ∷ ys) (p, ps) h = elim (Bool-cases (str_eq y x)) [
  | inl e ↦ subst P ((eq_iff y x).0 e) p
  | inr e ↦ member P x ys ps (ground (arith, h, e))
]

module _ (ms : List Model) (bs : List Budgeted) (routes : List CaseRoute) where
  abbrev known_models : List String
  known_models = map (λ (m : Model). m.binding.model_id) ms

  abbrev Placed : Slot → Type 0
  Placed = IsPlaced (map (λ (b : Budgeted). b.component) bs) (map (λ (m : Model). m.binding) ms)

  check_slot-IsPlaced :
      (seen : List Slot) (s : Slot)
      → All (IsRead known_models) bs
      → check_slot ms bs routes seen s ≡ ok tt
      → Placed s
  unfolding check_slot
  check_slot-IsPlaced seen s read h =
      let (b, h1, e1) = returned_by (found_or unplanned_component _) _ tt h in
      let (found, (sized, known)) =
        found_component known_models s.component_id bs b read
          (found_or-ok unplanned_component _ b e1) in
      let (h2, t2, e2) =
        last_of_two (ensure (contains s.model_id b.model_ids) unauthorized_model) _ tt h1 in
      (
        (b.component, found, sized),
        found_binding s.model_id ms (
            member (λ id. contains id known_models ≡ true) s.model_id b.model_ids known
              (ensure-ok unauthorized_model e2)),
      )

  check_slots-IsPlaced :
      (seen slots : List Slot)
      → All (IsRead known_models) bs
      → check_slots ms bs routes seen slots ≡ ok tt
      → All Placed slots
  unfolding check_slots
  check_slots-IsPlaced seen [] read h = tt
  check_slots-IsPlaced seen (s ∷ ss) read h =
      let (rest, t, first) =
        last_of_two (check_slot ms bs routes seen s) (check_slots ms bs routes (seen ++ s ∷ []) ss)
          tt h in
      (check_slot-IsPlaced seen s read first, check_slots-IsPlaced (seen ++ s ∷ []) ss read rest)

read_components-IsRead :
    (models : List String) (v : Value) (bs : List Budgeted)
    → read_components models v ≡ ok bs
    → All (IsRead models) bs
unfolding read_components
read_components-IsRead models (arr items) bs h =
    let (cs, rest, first) =
      returned_by (read_each _ (read_component models) [] (elements items)) _ bs h in
    let (last, t, filled) = last_of_two (raise_if (is_empty cs) no_components) (ok cs) bs rest in
    subst (All (IsRead models)) (ok_eq last) (
      read_each-All (IsRead models) _ (read_component models) (read_component-IsRead models) []
        (elements items) cs tt first)
read_components-IsRead models _ bs h = cc

planned_map :
    (models : List String) (bs : List Budgeted)
    → All (IsRead models) bs
    → All (λ (c : Component). IsSized c.maximums) (map (λ (b : Budgeted). b.component) bs)
planned_map models [] p = tt
planned_map models (b ∷ bs) (p, ps) = (p.0, planned_map models bs ps)

-- The constructor leaves amounts that the ledger takes, and for each slot of the plan its component
-- and the binding of its model.
pub construct-IsPlaced :
    (payload_sha256 : Value → Option String) (authority : Authority)
    (models components case_routes execution_plan : Value) (frozen : Frozen)
    → construct payload_sha256 authority models components case_routes execution_plan ≡ ok frozen
    → IsPlanned frozen × All (IsPlaced frozen.components frozen.bindings) frozen.slots
unfolding construct
construct-IsPlaced payload_sha256 authority models components case_routes execution_plan frozen h =
    let (ms, h1, e1) = returned_by (read_models models) _ frozen h in
    let (bs, h2, e2) = returned_by (read_components _ components) _ frozen h1 in
    let (routes, h3, e3) = returned_by (read_routes case_routes) _ frozen h2 in
    let (plan, h4, e4) =
      returned_by (or_refuse bad_plan (read_plan payload_sha256 execution_plan)) _ frozen h3 in
    let (h5, t5, e5) = last_of_two (ensure _ wrong_plan) _ frozen h4 in
    let (h6, t6, e6) = last_of_two (check_slots ms bs routes [] plan.slots) _ frozen h5 in
    let (h7, t7, e7) = last_of_two (check_matrix plan.slots bs) _ frozen h6 in
    let read = read_components-IsRead _ components bs e2 in
    subst (λ (f : Frozen). IsPlanned f × All (IsPlaced f.components f.bindings) f.slots) (ok_eq h7)
      (planned_map _ bs read, check_slots-IsPlaced ms bs routes [] plan.slots read e6)
