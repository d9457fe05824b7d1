-- ===== src/Statistics/Safety.antt =====
-- `aggregate_case_safety_failures` of src/prompt_performance_engine/frontier_statistics.py: repeated
-- observations of a case count as one, which fails when any of them does.
use prompt_performance_engin.Statistics.Floats.{
  Error, bad_observations, no_cases, too_many_cases, bad_case_id, too_many_observations,
}
use prompt_performance_engin.Prelude.{
  List, ◌≤◌, Bool, String, ℕ, length, map, ◌≡◌, is_empty, select, ◌+◌, arith, ltb, subst, ◌∷◌, [],
  any, ◌==◌, ◌-◌, false, ap, refl, sym, length-map, ◌∙◌,
}
use prompt_performance_engin.Prelude.Result.{
  Result, ok, err, ◌>>=◌, ◌>>◌, raise_if, traverse, returned_by, last_of_two, ok_eq, raise_if-ok,
}
use prompt_performance_engin.Prelude.Value.{
  end, field, Fields, Value, arr, obj, keys, elements, field,
}
use prompt_performance_engin.Statistics.Pareto.{entry_key, entries}
use prompt_performance_engin.Prelude.Text.{is_blank}
use prompt_performance_engin.Prelude.Sort.{sort_by, length-sort_by}

-- `MAX_DIAGNOSTIC_CASES`
abbrev pub max_diagnostic_cases : ℕ
max_diagnostic_cases = 10_000

unfoldable pub observation : Value → Result Error Bool
observation (Value.bool b) = ok b
observation value = err bad_observations

-- An entry of `case_failures`.
pub record CaseFailure : Type 0 where
  pub case_id : String
  pub failed : Bool

-- The loop over the sorted cases, with `total_observations`.
unfoldable pub collect : ℕ → List (String × Value) → Result Error (List CaseFailure × ℕ)
collect total [] = ok ([], total)
collect total ((case_id, arr items) ∷ rest) = do
  raise_if (length (elements items) == 0) bad_observations
  raise_if (ltb (max_diagnostic_cases - total) (length (elements items))) too_many_observations
  values ← traverse observation (elements items)
  later ← collect (total + length (elements items)) rest
  ok (record { case_id = case_id; failed = any (λ b. b) values } ∷ later.0, later.1)
collect total ((case_id, value) ∷ rest) = err bad_observations

pub record SafetyFailures : Type 0 where
  pub independent_case_count : ℕ
  pub failed_case_count : ℕ
  pub replicate_observation_count : ℕ
  pub failed_case_ids : List String

unfoldable pub summary_of : List CaseFailure × ℕ → SafetyFailures
summary_of (cases, total) =
    let failed_ids =
      map (λ (c : CaseFailure). c.case_id) (select (λ (c : CaseFailure). c.failed) cases) in
    record {
      independent_case_count = length cases;
      failed_case_count = length failed_ids;
      replicate_observation_count = total;
      failed_case_ids = failed_ids;
    }

unfoldable pub aggregate_case_safety_failures : Value → Result Error SafetyFailures
aggregate_case_safety_failures (obj fs) = do
  raise_if (is_empty (keys fs)) no_cases
  raise_if (ltb max_diagnostic_cases (length (keys fs))) too_many_cases
  raise_if (any is_blank (keys fs)) bad_case_id
  found ← collect 0 (sort_by entry_key (entries fs))
  ok (summary_of found)
aggregate_case_safety_failures value = err no_cases

-- Each case has an observation at least, and together they stay within the limit.
collect-bounds :
    (total : ℕ) (cases : List (String × Value)) (found : List CaseFailure × ℕ)
    → total ≤ max_diagnostic_cases
    → collect total cases ≡ ok found
    → (total + length found.0 ≤ found.1)
      × (found.1 ≤ max_diagnostic_cases)
      × (map (λ (c : CaseFailure). c.case_id) found.0 ≡ map entry_key cases)
unfolding collect
collect-bounds total [] found h e =
    subst
      (λ (x : List CaseFailure × ℕ).
        (total + length x.0 ≤ x.1)
        × (x.1 ≤ max_diagnostic_cases)
        × (map (λ (c : CaseFailure). c.case_id) x.0 ≡ []))
      (ok_eq e) (omega arith, h, refl)
collect-bounds total ((case_id, arr items) ∷ rest) found h e =
    let n = length (elements items) in
    let (e1, t1, some_) = last_of_two (raise_if (n == 0) bad_observations) _ found e in
    let (e2, t2, fits) =
      last_of_two (raise_if (ltb (max_diagnostic_cases - total) n) too_many_observations) _ found
        e1 in
    let (values, e3, read) = returned_by (traverse observation (elements items)) _ found e2 in
    let (later, e4, others) = returned_by (collect (total + n) rest) _ found e3 in
    let positive : (n == 0) ≡ false = raise_if-ok bad_observations some_ in
    let within : ltb (max_diagnostic_cases - total) n ≡ false =
      raise_if-ok too_many_observations fits in
    let (more, below_, same) =
      collect-bounds (total + n) rest later (ground (arith, within, h)) others in
    subst
      (λ (x : List CaseFailure × ℕ).
        (total + length x.0 ≤ x.1)
        × (x.1 ≤ max_diagnostic_cases)
        × (map (λ (c : CaseFailure). c.case_id) x.0 ≡ case_id ∷ map entry_key rest))
      (ok_eq e4) (ground (arith, more, positive), below_, ap (λ ids. case_id ∷ ids) same)
collect-bounds total ((case_id, _) ∷ rest) found h e = cc

length-select : {A : Type 0} (test : A → Bool) (xs : List A) → length (select test xs) ≤ length xs
length-select test [] = omega arith
length-select test (x ∷ xs) = ground (arith, length-select test xs)

length-entries : (fs : Fields) → length (entries fs) ≡ length (keys fs)
length-entries end = refl
length-entries (field k v fs) = omega (arith, length-entries fs)

-- The counts of every result are such as the risk bound takes: no more failed cases than cases, no
-- more cases than observations, and no more observations than the limit; each case is counted once.
pub aggregate_case_safety_failures-bounds :
    (fs : Fields) (r : SafetyFailures)
    → aggregate_case_safety_failures (obj fs) ≡ ok r
    → (r.failed_case_count ≤ r.independent_case_count)
      × (r.independent_case_count ≤ r.replicate_observation_count)
      × (r.replicate_observation_count ≤ max_diagnostic_cases)
      × (r.failed_case_count ≡ length r.failed_case_ids)
      × (r.independent_case_count ≡ length (keys fs))
unfolding aggregate_case_safety_failures summary_of
aggregate_case_safety_failures-bounds fs r h =
    let (h1, t1, filled) = last_of_two (raise_if (is_empty (keys fs)) no_cases) _ r h in
    let (h2, t2, few) =
      last_of_two (raise_if (ltb max_diagnostic_cases (length (keys fs))) too_many_cases) _ r h1 in
    let (h3, t3, named) = last_of_two (raise_if (any is_blank (keys fs)) bad_case_id) _ r h2 in
    let (found, h4, collected) = returned_by (collect 0 (sort_by entry_key (entries fs))) _ r h3 in
    let (more, small, same) =
      collect-bounds 0 (sort_by entry_key (entries fs)) found (omega arith) collected in
    let cases : length found.0 ≡ length (keys fs) =
      sym (length-map (λ (c : CaseFailure). c.case_id) found.0)
      ∙ ap length same
      ∙ length-map entry_key (sort_by entry_key (entries fs))
      ∙ length-sort_by entry_key (entries fs)
      ∙ length-entries fs in
    let failing = length-select (λ (c : CaseFailure). c.failed) found.0 in
    let counted =
      length-map (λ (c : CaseFailure). c.case_id)
        (select (λ (c : CaseFailure). c.failed) found.0) in
    subst
      (λ (r : SafetyFailures).
        (r.failed_case_count ≤ r.independent_case_count)
        × (r.independent_case_count ≤ r.replicate_observation_count)
        × (r.replicate_observation_count ≤ max_diagnostic_cases)
        × (r.failed_case_count ≡ length r.failed_case_ids)
        × (r.independent_case_count ≡ length (keys fs)))
      (ok_eq h4) (omega (arith, failing, counted), omega (arith, more), small, refl, cases)
