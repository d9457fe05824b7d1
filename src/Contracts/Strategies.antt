-- ===== src/Contracts/Strategies.antt =====
-- `candidate_strategy_plan` of src/prompt_performance_engine/contracts.py.
use prompt_performance_engin.Prelude.{
  ℕ, ◌≤◌, ◌&&◌, ◌≡◌, refl, String, List, [], ◌∷◌, take, length, leb, ◌==◌, if◌then◌else◌, arith,
  suc, ◌⊎◌, ap, ◌<◌, Bool-cases, inl, leb→le, inr, zero,
}
use prompt_performance_engin.Prelude.Result.{Result, ok, err}

pub record Strategy : Type 0 where
  pub name : String
  pub focus : String

-- `CANDIDATE_STRATEGIES`
abbrev pub candidate_strategies : List Strategy
candidate_strategies =
    record {
      name = "fidelity_guardrail";
      focus = "Prioritize exact intent, constraint, evidence-scope, and output-contract fidelity.";
    }
    ∷ record {
      name = "coverage_matrix";
      focus = "Systematically cover every actor, deliverable component, objection, and check.";
    }
    ∷ record {
      name = "concise_channel_fit";
      focus = "Minimize ceremony and repetition while maximizing target-surface usability.";
    }
    ∷ record {
      name = "adversarial_red_team";
      focus = "Eliminate likely safety, unsupported-claim, ambiguity, and regression failures.";
    }
    ∷ record {
      name = "balanced_synthesis";
      focus = "Balance fidelity, completeness, usability, safeguards, and token efficiency.";
    }
    ∷ []

abbrev pub default_strategy : Strategy
default_strategy = record {
  name = "default";
  focus = "Use the standard balanced optimization contract.";
}

pub data Error : Type 0 where
  bad_count : Error

unfoldable pub candidate_strategy_plan : ℕ → Result Error (List Strategy)
candidate_strategy_plan count =
    if count == 1
    then ok (default_strategy ∷ [])
    else if leb 2 count && leb count 5
    then ok (take count candidate_strategies)
    else err bad_count

length-take : {A : Type 0} (n : ℕ) (xs : List A) → n ≤ length xs → length (take n xs) ≡ n
length-take zero xs h = refl
length-take (suc n) [] h = absurd (omega arith)
length-take (suc n) (x ∷ xs) h = ap suc (length-take n xs (omega arith))

abbrev plan_length : Result Error (List Strategy) → ℕ
plan_length (ok plan) = length plan
plan_length (err e) = 0

-- A plan that is returned has one strategy for each of the candidates asked for, which are one to
-- five; for any other number there is no plan.
pub candidate_strategy_plan_lem :
    (n : ℕ) (plan : List Strategy)
    → (candidate_strategy_plan n ≡ ok plan → (length plan ≡ n) × (1 ≤ n) × (n ≤ 5))
      × ((n ≡ 0) ⊎ (5 < n) → candidate_strategy_plan n ≡ err bad_count)
unfolding candidate_strategy_plan
candidate_strategy_plan_lem n plan = (
  (λ h. elim (Bool-cases (leb n 5)) [
    | inl e ↦
        ground (
          arith,
          length-take n candidate_strategies (omega (arith, leb→le n 5 e)),
          ap plan_length h,
        )
    | inr e ↦ ground (arith, ap plan_length h)
  ]),
  (λ h. ground arith),
)
