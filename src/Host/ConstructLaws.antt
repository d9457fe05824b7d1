-- ===== src/Host/ConstructLaws.antt =====
-- What the frozen data that `__init__` leaves is good for.
use prompt_performance_engin.Prelude.Result.{
  Result, ok, err, ensure, raise_if, traverse, traverse_cons, returned_by, last_of_two, ok_eq,
}
use prompt_performance_engin.Prelude.{
  List, some, String, ℕ, Bool, ◌≤◌, All, ◌≡◌, ap, contains, subst, true, ◌∷◌, Bool-cases, Option,
  [], map, arith, inl, not, ◌++◌, is_empty, refl, sym, ◌&&◌, ◌∙◌, inr, str_eq,
}
use prompt_performance_engin.Host.Catalog.{
  distinct_items, or_refuse, read_component, read_each, sized, text_where, Budgeted, Refusal,
  bad_component_fields, item, bad_field, named, no_capacity, repeated_component, distinct,
  bad_model_ids, bad_purposes,
}
use prompt_performance_engin.Host.Construct.{find_first}
use prompt_performance_engin.Prelude.Value.{Value, Fields, arr, obj, elements}
use prompt_performance_engin.Budget.Amounts.{max_budget_value, tabulate, Axis}
use prompt_performance_engin.Host.Invariant.{IsSized, All-append}
use prompt_performance_engin.Host.AssessLaws.{resource-le}
use prompt_performance_engin.Host.Checking.{resource}

module _ {A : Type 0} (P : A → Type 0) where
  -- What holds of each item that is read holds of all.
  pub read_each-All :
      (key : A → String) (read : List String → Value → Result Refusal A)
      → ((known : List String) (v : Value) (x : A) → read known v ≡ ok x → P x)
      → (known : List A) (vs : List Value) (xs : List A) → All P known
      → read_each key read known vs ≡ ok xs
      → All P xs
  unfolding read_each
  read_each-All key read each known [] xs p h = subst (All P) (ok_eq h) p
  read_each-All key read each known (v ∷ vs) xs p h =
      let (x, rest, first) =
        returned_by (read (map key known) v) (λ x. read_each key read (known ++ x ∷ []) vs) xs h in
      read_each-All key read each (known ++ x ∷ []) vs xs
        (All-append P known x p (each (map key known) v x first)) rest

  traverse-All :
      (read : Value → Result Refusal A)
      → ((v : Value) (x : A) → read v ≡ ok x → P x)
      → (vs : List Value) (xs : List A) → traverse read vs ≡ ok xs
      → All P xs
  traverse-All read each [] xs h = subst (All P) (ok_eq h) tt
  traverse-All read each (v ∷ vs) xs h =
      let (y, ys, first, others, whole) = traverse_cons read v vs xs h in
      subst (All P) whole (each v y first, traverse-All read each vs ys others)

  distinct_items-All :
      (eq : A → A → Bool) (read : Value → Result Refusal A) (e : Refusal)
      → ((v : Value) (x : A) → read v ≡ ok x → P x)
      → (v : Value) (xs : List A) → distinct_items eq read e v ≡ ok xs
      → All P xs
  unfolding distinct_items
  distinct_items-All eq read e each (arr items) xs h =
      let (ys, rest, first) = returned_by (traverse read (elements items)) _ xs h in
      let (last, t, differ) =
        last_of_two (ensure (not (is_empty ys) && distinct eq ys) e) (ok ys) xs rest in
      subst (All P) (ok_eq last) (traverse-All read each (elements items) ys first)
  distinct_items-All eq read e each _ xs h = cc

  find_first-All :
      (test : A → Bool) (xs : List A) (x : A) → All P xs → find_first test xs ≡ some x → P x
  unfolding find_first
  find_first-All test [] x p h = cc
  find_first-All test (y ∷ ys) x (p, ps) h = elim (Bool-cases (test y)) [
    | inl e ↦ subst P (some_inner (sym (rw e refl) ∙ h)) p
    | inr e ↦ find_first-All test ys x ps (sym (rw e refl) ∙ h)
  ]
    where
      some_inner : {a b : A} → ◌≡◌ {A = Option A} (some a) (some b) → a ≡ b
      some_inner h = cc

text_where-holds :
    (test : String → Bool) (e : Refusal) (v : Value) (s : String)
    → text_where test e v ≡ ok s
    → test s ≡ true
unfolding text_where
text_where-holds test e (Value.str t) s h = elim (Bool-cases (test t)) [
  | inl q ↦ subst (λ x. test x ≡ true) (ok_eq (sym (rw q refl) ∙ h)) q
  | inr q ↦ absurd (refused (sym (rw q refl) ∙ h))
]
  where
    refused : ◌≡◌ {A = Result Refusal String} (err e) (ok s) → ⊥
    refused h = cc
text_where-holds test e _ s h = cc

or_refuse-ok :
    {E A : Type 0} (e : Refusal) (r : Result E A) (a : A) → or_refuse e r ≡ ok a → r ≡ ok a
unfolding or_refuse
or_refuse-ok e (ok b) a h = ap (λ x. ok x) (ok_eq h)
or_refuse-ok e (err x) a h = cc

sized-le : (name : String) (fs : Fields) (n : ℕ) → sized name fs ≡ ok n → n ≤ max_budget_value
unfolding sized
sized-le name fs n h =
    resource-le (item name fs) n (or_refuse-ok bad_field (resource (item name fs)) n h)

tabulate-IsSized :
    (i o m w : ℕ)
    → i ≤ max_budget_value
    → o ≤ max_budget_value
    → m ≤ max_budget_value
    → w ≤ max_budget_value
    → IsSized (tabulate 1 i o m w)
tabulate-IsSized i o m w hi ho hm hw = record { one = refl; small = each }
  where
    each : (x : Axis) → tabulate 1 i o m w x ≤ max_budget_value
    each Axis.calls = omega arith
    each Axis.input_tokens = hi
    each Axis.output_tokens = ho
    each Axis.money_microunits = hm
    each Axis.wall_clock_ms = hw

-- A component that was read has amounts that the ledger takes, and models that are known.
abbrev pub IsRead : List String → Budgeted → Type 0
IsRead models b = IsSized b.component.maximums × All (λ id. contains id models ≡ true) b.model_ids

pub read_component-IsRead :
    (models known : List String) (v : Value) (b : Budgeted)
    → read_component models known v ≡ ok b
    → IsRead models b
unfolding read_component
read_component-IsRead models known (obj fs) b h =
    let (h1, t1, e1) = last_of_two (ensure _ bad_component_fields) _ b h in
    let (component_id, h2, e2) = returned_by (named "component_id" fs) _ b h1 in
    let (role, h3, e3) = returned_by (named "role" fs) _ b h2 in
    let (units, h4, e4) = returned_by (sized "unit_count" fs) _ b h3 in
    let (attempts, h5, e5) = returned_by (sized "attempts_per_unit" fs) _ b h4 in
    let (h6, t6, e6) = last_of_two (ensure _ no_capacity) _ b h5 in
    let (i, h7, e7) = returned_by (sized "max_input_tokens_per_attempt" fs) _ b h6 in
    let (o, h8, e8) = returned_by (sized "max_output_tokens_per_attempt" fs) _ b h7 in
    let (m, h9, e9) = returned_by (sized "max_money_microunits_per_attempt" fs) _ b h8 in
    let (w, h10, e10) = returned_by (sized "max_wall_clock_ms_per_attempt" fs) _ b h9 in
    let (h11, t11, e11) = last_of_two (raise_if _ repeated_component) _ b h10 in
    let (ids, h12, e12) =
      returned_by
        (distinct_items str_eq (text_where (λ s. contains s models) bad_model_ids) bad_model_ids
          (item "model_ids" fs))
        _ b h11 in
    let (purposes, h13, e13) =
      returned_by (distinct_items str_eq _ bad_purposes (item "purposes" fs)) _ b h12 in
    subst (IsRead models) (ok_eq h13) (
      tabulate-IsSized i o m w (sized-le _ fs i e7) (sized-le _ fs o e8) (sized-le _ fs m e9)
          (sized-le _ fs w e10),
      distinct_items-All (λ id. contains id models ≡ true) str_eq _ bad_model_ids
          (text_where-holds (λ s. contains s models) bad_model_ids) (item "model_ids" fs) ids e12,
    )
read_component-IsRead models known _ b h = cc
