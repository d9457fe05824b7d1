-- ===== src/Evaluation/Suite.antt =====
-- `evaluate_suite` of src/prompt_performance_engine/evaluation.py: the cases in turn, the counts, the
-- release gate and the evidence that follows. The digest of the result is left out.
use prompt_performance_engin.Prelude.{
  ℕ, Bool, true, false, ◌&&◌, not, List, String, length, count_if, ltb, leb, ◌==◌, is_empty, Option,
}
use prompt_performance_engin.Evaluation.HardChecks.{
  Host, hard_checks, required_check, forbidden_check, later_checks,
}
use prompt_performance_engin.Evaluation.Run.{
  CaseRecord, Executor, Judge, evaluate_case, execute_prompt, evaluate_outputs, decide, ask,
  case_record, verdict_of, normalize_execution,
}
use prompt_performance_engin.Evidence.{Evidence, infer_evidence}
use prompt_performance_engin.Evaluation.Judging.{
  is_loss, is_tie, is_win, aggregate_judges, map_winner, mapped_winners, optimized_fatal, majority,
}
use prompt_performance_engin.Prelude.Value.{ℤ}
use prompt_performance_engin.Evaluation.Case.{
  EvaluationCase, Error, empty_suite_id, no_cases, validate_case, validate_decision,
}
use prompt_performance_engin.Prelude.Action.{◌>>=◌, ◌>>◌, for_each, Action, lift, pure}
use prompt_performance_engin.Prelude.Result.{raise_if}
use prompt_performance_engin.Prelude.Text.{is_blank}
use prompt_performance_engin.Checks.Record.{all_passed}
use prompt_performance_engin.Evaluation.Forbidden.{contains_unnegated_forbidden}
use prompt_performance_engin.Checks.CaseChecks.{
  run_case_checks, find_verifier, software_verification, requires_docker, docker_required,
}

pub record SuiteResult : Type 0 where
  pub suite_id : String
  pub case_count : ℕ
  pub wins : ℕ
  pub ties : ℕ
  pub losses : ℕ
  pub critical_regressions : ℕ
  pub fatal_flaws : ℕ
  pub optimized_hard_failures : ℕ
  pub gate_passed : Bool
  pub repeated_or_cross_model : Bool
  pub evidence : Evidence
  pub records : List CaseRecord

-- The counts, and the gate on them.
unfoldable pub gate : ℕ → ℕ → ℕ → ℕ → ℕ → ℕ → Bool
gate case_count wins losses critical_regressions fatal_flaws optimized_hard_failures =
    leb 5 case_count
    && ltb losses wins
    && critical_regressions == 0
    && fatal_flaws == 0
    && optimized_hard_failures == 0

abbrev pub won : CaseRecord → Bool
won r = is_win r.outcome

abbrev pub tied : CaseRecord → Bool
tied r = is_tie r.outcome

abbrev pub lost : CaseRecord → Bool
lost r = is_loss r.outcome

abbrev pub regressed : CaseRecord → Bool
regressed r = r.critical_regression

abbrev pub flawed : CaseRecord → Bool
flawed r = r.fatal_flaw

abbrev pub failed_hard : CaseRecord → Bool
failed_hard r = not r.optimized_checks.passed

unfoldable pub gate_of : List CaseRecord → Bool
gate_of records =
    gate (length records) (count_if won records) (count_if lost records)
      (count_if regressed records) (count_if flawed records) (count_if failed_hard records)

-- From the records on.
unfoldable pub suite_result : String → List CaseRecord → SuiteResult
unfolding gate_of
suite_result suite_id records = record {
  suite_id = suite_id;
  case_count = length records;
  wins = count_if won records;
  ties = count_if tied records;
  losses = count_if lost records;
  critical_regressions = count_if regressed records;
  fatal_flaws = count_if flawed records;
  optimized_hard_failures = count_if failed_hard records;
  gate_passed = gate_of records;
  repeated_or_cross_model = false;
  evidence = infer_evidence true (length records) (gate_of records) false 0 false;
  records = records;
}

module _ {W S : Type 0} (host : Host S) (first_byte : ℤ → String → ℕ) (executor : Executor W)
    (judges : List (Judge W)) (seed : ℤ) (sandbox : Option S) where
  unfoldable pub evaluate_suite :
      String → String → String → List EvaluationCase → Action W Error SuiteResult
  unfolding suite_result
  evaluate_suite suite_id original optimized cases = do
    lift (raise_if (is_blank suite_id) empty_suite_id)
    lift (raise_if (is_empty cases) no_cases)
    records ←
        for_each (evaluate_case host first_byte executor judges seed sandbox original optimized)
          cases
    pure (suite_result suite_id records)

-- All of the code of an evaluation: a test names it to see through every part.
unfoldable pub code_of_evaluation : Unit {0}
unfolding evaluate_suite evaluate_case execute_prompt evaluate_outputs decide ask validate_case
    validate_decision hard_checks required_check forbidden_check later_checks aggregate_judges
    map_winner mapped_winners optimized_fatal majority case_record verdict_of normalize_execution
    all_passed contains_unnegated_forbidden run_case_checks software_verification requires_docker
    docker_required find_verifier is_blank
code_of_evaluation = tt
