-- ===== src/Statistics/Tests.antt =====
-- The theorems on the statistics at concrete candidates, with whole numbers for the floats.
use prompt_performance_engin.Prelude.Value.{
  Value, ℤ, end, field, obj, int, Fields, arr, cons, nil, keys,
}
use prompt_performance_engin.Prelude.{
  List, none, some, ℕ, Option, leb, ◌≡◌, true, ◌∷◌, ◌⊎◌, Bool-cases, [], inl, map, inr, arith, refl,
  ◌≤◌, false, length,
}
use prompt_performance_engin.Statistics.Floats.{Floats, IsOrdered, unit_number, from_nought}
use prompt_performance_engin.Statistics.Pareto.{
  pareto_nondominated_ids, Candidate, front, is_dominated, read_candidates, dominates,
  read_candidate, number_at,
}
use prompt_performance_engin.Prelude.Result.{ok}
use prompt_performance_engin.Statistics.ParetoLaws.{IsFront, pareto_nondominated_ids-IsFront}
use prompt_performance_engin.Prelude.Sort.{sort_by}
use prompt_performance_engin.Prelude.Text.{is_blank}
use prompt_performance_engin.Statistics.Safety.{
  SafetyFailures, aggregate_case_safety_failures, collect, max_diagnostic_cases,
  aggregate_case_safety_failures-bounds, observation, summary_of,
}

abbrev whole : Value → Option ℕ
whole (int (ℤ.pos n)) = some n
whole value = none

abbrev numbers : Floats
numbers = record { Number = ℕ; is_le = leb; read = whole; nought = 0; unity = 1 }

numbers-IsOrdered : IsOrdered numbers
numbers-IsOrdered = record {
  total = λ a b. either a b;
  transitive = λ a b c h k. ground (arith, h, k);
}
  where
    either : (a b : ℕ) → (leb a b ≡ true) ⊎ (leb b a ≡ true)
    either a b = elim (Bool-cases (leb a b)) [ inl e ↦ inl e | inr e ↦ inr (ground (arith, e)) ]

abbrev measures : ℕ → ℕ → ℕ → Value
measures q c l = obj (
    field "quality" (int (ℤ.pos q))
      (field "cost" (int (ℤ.pos c)) (field "p95_latency_ms" (int (ℤ.pos l)) end)))

-- "slow" is dominated by "base"; "cheap" and "base" are not.
abbrev candidates : Value
candidates = obj (
    field "slow" (measures 1 9 9)
      (field "cheap" (measures 0 1 5) (field "base" (measures 1 4 5) end)))

candidates_front : pareto_nondominated_ids numbers candidates ≡ ok ("base" ∷ "cheap" ∷ [])
unfolding pareto_nondominated_ids front is_dominated dominates read_candidates read_candidate
    number_at unit_number from_nought sort_by is_blank
candidates_front = refl

pareto_nondominated_ids-IsFront_example :
    (cs : List (Candidate numbers)) × (kept : List (Candidate numbers)) × (read_candidates numbers
        candidates
      ≡ ok cs)
    × ("base" ∷ "cheap" ∷ [] ≡ map (λ (c : Candidate numbers). c.id) kept)
    × IsFront numbers numbers-IsOrdered cs kept
pareto_nondominated_ids-IsFront_example =
    pareto_nondominated_ids-IsFront numbers numbers-IsOrdered candidates ("base" ∷ "cheap" ∷ [])
      candidates_front

abbrev observed : Fields
observed =
    field "case-2" (arr (cons (Value.bool false) (cons (Value.bool true) nil)))
      (field "case-1" (arr (cons (Value.bool false) nil)) end)

abbrev summary : SafetyFailures
summary = record {
  independent_case_count = 2;
  failed_case_count = 1;
  replicate_observation_count = 3;
  failed_case_ids = "case-2" ∷ [];
}

counted_once : aggregate_case_safety_failures (obj observed) ≡ ok summary
unfolding aggregate_case_safety_failures collect observation summary_of sort_by is_blank
counted_once = refl

aggregate_case_safety_failures-bounds_example :
    (summary.failed_case_count ≤ summary.independent_case_count)
    × (summary.independent_case_count ≤ summary.replicate_observation_count)
    × (summary.replicate_observation_count ≤ max_diagnostic_cases)
    × (summary.failed_case_count ≡ length summary.failed_case_ids)
    × (summary.independent_case_count ≡ length (keys observed))
aggregate_case_safety_failures-bounds_example =
    aggregate_case_safety_failures-bounds observed summary counted_once
