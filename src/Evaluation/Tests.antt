-- ===== src/Evaluation/Tests.antt =====
-- The theorems on evaluation at a small suite.
use prompt_performance_engin.Prelude.{
  ◌≡◌, refl, [], ◌∷◌, String, true, false, none, some, ◌≤◌, All, Bool, arith, count_if, map, ◌<◌,
  str_eq, ◌⊎◌, any, ◌↔◌,
}
use prompt_performance_engin.Evaluation.Case.{EvaluationCase, Error, JudgeDecision}
use prompt_performance_engin.Evaluation.Forbidden.{
  Patterns, scan, contains_unnegated_forbidden, scan_empty_diverges,
  contains_unnegated_forbidden_total,
}
use prompt_performance_engin.Evaluation.HardChecks.{Loading, Host, HardChecks, hard_checks}
use prompt_performance_engin.Evaluation.Run.{
  CaseRecord, Executor, Judge, Execution, evaluate_case, case_record, verdict_of,
}
use prompt_performance_engin.Evaluation.Suite.{
  code_of_evaluation, SuiteResult, suite_result, evaluate_suite, gate_of, gate,
}
use prompt_performance_engin.Prelude.Result.{Result, ok}
use prompt_performance_engin.Evaluation.Judging.{
  loss, win, aggregate_judges, HasWinner, relabel, aggregate_judges-relabel, aggregate_judges_lem,
  prefers_optimized, prefers_original, faults_optimized,
}
use prompt_performance_engin.Prelude.Text.{codes}
use prompt_performance_engin.Prelude.Value.{pos, Value, obj, end}
use prompt_performance_engin.Evaluation.RunLaws.{IsConsistent, evaluate_case-IsConsistent}
use prompt_performance_engin.Checks.CaseChecks.{docker_required}
use prompt_performance_engin.Evaluation.HardLaws.{
  hard_checks_fail_closed, Occurs, IsExcluded, LaterHold, hard_checks_sound,
}
use prompt_performance_engin.Evaluation.SuiteLaws.{Tallies, evaluate_suite-Tallies, gate_passed_lem}
use prompt_performance_engin.Evidence.{infer_evidence, validate, infer_evidence_ceiling}

abbrev World : Type 0
World = Unit {0}

abbrev quiet : Patterns
quiet = record {
  negation = λ t. none;
  reversal = λ t. false;
  reported_request = λ t. false;
  warning_before = λ t. false;
  warning_after = λ t. true;
  rejection_before = λ t. false;
  rejection_after = λ t. false;
}

abbrev host : Host World
host = record {
  casefold = codes;
  load_json = λ s. Loading.loaded;
  patterns = record quiet { warning_after = λ t. false };
  verify = λ v s b. true;
  domain_checks = λ d i o. [];
}

abbrev sample : String → EvaluationCase
sample id = record {
  case_id = id;
  input_text = "Sum the list.";
  rubric = "correct" ∷ [];
  domain = "generic";
  difficulty = "normal";
  tags = [];
  required_substrings = "sum" ∷ [];
  forbidden_substrings = "guess" ∷ [];
  require_json = false;
  max_characters = some (pos 40);
}

-- The output is the prompt itself.
abbrev echo : Executor World
echo = record { execute = λ prompt input w. (ok (Execution.plain (Value.str prompt)), w) }

abbrev prefers_a : JudgeDecision
prefers_a = record {
  winner = Value.str "A";
  reason = Value.str "clearer";
  fatal_flaw_a = Value.bool false;
  fatal_flaw_b = Value.bool false;
  metadata = obj end;
}

abbrev judge_a : Judge World
judge_a = record { name = "first"; judge = λ c a b w. (ok prefers_a, w) }

abbrev checks_of : String → HardChecks
checks_of text = record {
  passed = true;
  checks =
      record { check = "required_substring"; passed = true; authoritative = none }
      ∷ record { check = "forbidden_substring"; passed = true; authoritative = none }
      ∷ record { check = "max_characters"; passed = true; authoritative = none }
      ∷ [];
}

abbrev run_sample : World → Result Error CaseRecord × World
run_sample =
    evaluate_case host (λ s i. 0) echo (judge_a ∷ judge_a ∷ []) (pos 0) none "a sum" "the sum"
      (sample "c1")

-- The record that the sample run leads to.
abbrev sample_record : CaseRecord
sample_record =
    case_record (sample "c1") true "a sum" "the sum" (checks_of "a sum") (checks_of "the sum") (
      verdict_of true (
        record { judge = "first"; decision = prefers_a }
        ∷ record { judge = "first"; decision = prefers_a }
        ∷ []))

sample_runs : run_sample tt ≡ (ok sample_record, tt)
unfolding code_of_evaluation
sample_runs = refl

sample_won : sample_record.outcome ≡ win
unfolding code_of_evaluation
sample_won = refl

evaluate_case-IsConsistent_example :
    IsConsistent ("first" ∷ "first" ∷ []) sample_record
    × (2 ≤ 2)
    × (hard_checks host (sample "c1") "a sum" none ≡ ok sample_record.original_checks)
    × (hard_checks host (sample "c1") "the sum" none ≡ ok sample_record.optimized_checks)
unfolding case_record
evaluate_case-IsConsistent_example =
    evaluate_case-IsConsistent host (λ s i. 0) echo (judge_a ∷ judge_a ∷ []) (pos 0) none "a sum"
      "the sum" (sample "c1") tt tt sample_record sample_runs

two_votes : All HasWinner (prefers_a ∷ prefers_a ∷ [])
two_votes = (refl, (refl, tt))

aggregate_judges-relabel_example :
    aggregate_judges (map relabel (prefers_a ∷ prefers_a ∷ [])) false
    ≡ aggregate_judges (prefers_a ∷ prefers_a ∷ []) true
aggregate_judges-relabel_example =
    aggregate_judges-relabel (prefers_a ∷ prefers_a ∷ []) true two_votes

aggregate_judges_lem_example :
    let wins = count_if (prefers_optimized true) (prefers_a ∷ prefers_a ∷ []) in
    let losses = count_if (prefers_original true) (prefers_a ∷ prefers_a ∷ []) in
    let (outcome, fatal) = aggregate_judges (prefers_a ∷ prefers_a ∷ []) true in
    (fatal ≡ any (faults_optimized true) (prefers_a ∷ prefers_a ∷ []))
    × (fatal ≡ true → outcome ≡ loss)
    × (fatal ≡ false → (outcome ≡ win) ↔ (losses < wins))
    × (fatal ≡ false → (outcome ≡ loss) ↔ (wins < losses))
aggregate_judges_lem_example = aggregate_judges_lem (prefers_a ∷ prefers_a ∷ []) true two_votes

sum_checks : hard_checks host (sample "c1") "the sum" none ≡ ok (checks_of "the sum")
unfolding code_of_evaluation
sum_checks = refl

hard_checks_sound_example :
    All (Occurs host "the sum") ("sum" ∷ [])
    × All (IsExcluded host "the sum") ("guess" ∷ [])
    × LaterHold host (sample "c1") "the sum" none
hard_checks_sound_example =
    hard_checks_sound host (sample "c1") "the sum" none (checks_of "the sum") sum_checks refl

abbrev sandboxed : EvaluationCase
sandboxed = sample "se-normal-cli"

abbrev closed_checks : HardChecks
closed_checks = record {
  passed = false;
  checks =
      record { check = "required_substring"; passed = true; authoritative = none }
      ∷ record { check = "forbidden_substring"; passed = true; authoritative = none }
      ∷ record { check = "max_characters"; passed = true; authoritative = none }
      ∷ record {
        check = "cli_contract_restricted_execution";
        passed = false;
        authoritative = some true;
      }
      ∷ [];
}

sandboxed_checks : hard_checks host sandboxed "the sum" none ≡ ok closed_checks
unfolding code_of_evaluation
sandboxed_checks = refl

needs_docker : docker_required "se-normal-cli" ≡ true
unfolding code_of_evaluation docker_required
needs_docker = refl

hard_checks_fail_closed_example : closed_checks.passed ≡ false
hard_checks_fail_closed_example =
    hard_checks_fail_closed host sandboxed "the sum" closed_checks needs_docker sandboxed_checks

contains_unnegated_forbidden_total_example :
    (b : Bool) × (contains_unnegated_forbidden quiet (codes "a guess") (codes "guess") ≡ some b)
contains_unnegated_forbidden_total_example =
    contains_unnegated_forbidden_total quiet (codes "a guess") (codes "guess") (omega arith)

scan_empty_diverges_example : scan quiet (codes "risk") [] 1000 0 ≡ none
scan_empty_diverges_example = scan_empty_diverges quiet (codes "risk") 1000 refl refl

abbrev suite_of_one : World → Result Error SuiteResult × World
suite_of_one =
    evaluate_suite host (λ s i. 0) echo (judge_a ∷ judge_a ∷ []) (pos 0) none "suite" "a sum"
      "the sum" (sample "c1" ∷ [])

suite_runs : suite_of_one tt ≡ (ok (suite_result "suite" (sample_record ∷ [])), tt)
unfolding code_of_evaluation
suite_runs = refl

evaluate_suite-Tallies_example :
    Tallies 1 ("first" ∷ "first" ∷ []) (suite_result "suite" (sample_record ∷ []))
evaluate_suite-Tallies_example =
    evaluate_suite-Tallies host (λ s i. 0) echo (judge_a ∷ judge_a ∷ []) (pos 0) none "suite"
      "a sum" "the sum" (sample "c1" ∷ []) tt tt (suite_result "suite" (sample_record ∷ []))
      suite_runs

gate_passed_lem_example :
    let rs = sample_record ∷ sample_record ∷ sample_record ∷ sample_record ∷ sample_record ∷ [] in
    let s = suite_result "suite" rs in
    (s.gate_passed ≡ true
      → All (λ r. r.optimized_checks.passed ≡ true) s.records
        × (5 ≤ s.case_count)
        × (s.losses < s.wins)
        × (s.critical_regressions ≡ 0)
        × (s.fatal_flaws ≡ 0))
    × (str_eq s.evidence.level "E2" ≡ s.gate_passed)
    × (str_eq s.evidence.status "verified_scoped" ≡ s.gate_passed)
    × (validate s.evidence ≡ ok tt)
gate_passed_lem_example =
    gate_passed_lem "suite"
      (sample_record ∷ sample_record ∷ sample_record ∷ sample_record ∷ sample_record ∷ [])

five_wins :
    (suite_result "suite" (
      sample_record ∷ sample_record ∷ sample_record ∷ sample_record ∷ sample_record
      ∷ [])).gate_passed
    ≡ true
unfolding code_of_evaluation suite_result gate_of gate
five_wins = refl

infer_evidence_ceiling_example :
    let e = infer_evidence true 5 true true 9 true in
    (validate e ≡ ok tt)
    × ((e.level ≡ "E0") ⊎ (e.level ≡ "E1") ⊎ (e.level ≡ "E2"))
    × (str_eq e.level "E2" ≡ true)
    × (str_eq e.status "verified_scoped" ≡ true)
    × (e ≡ infer_evidence true 5 true false 0 false)
infer_evidence_ceiling_example = infer_evidence_ceiling true true true true 5 9
