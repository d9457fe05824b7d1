-- ===== src/Evaluation/Run.antt =====
-- `evaluate_case` of src/prompt_performance_engine/evaluation.py. The executor and the judges are
-- given to the model as actions on a world of their own, which may raise; so is the first byte of
-- the digest by which the outputs are blinded. The fields of a record that are digests, metadata or
-- settings are left out.
use prompt_performance_engin.Prelude.{
  ℕ, ◌%◌, ◌==◌, ◌&&◌, not, Bool, false, List, [], String, length, ltb, if◌then◌else◌, Option, map,
}
use prompt_performance_engin.Evaluation.Case.{
  EvaluationCase, JudgeDecision, Error, empty_output, validate_case, validate_decision,
  too_few_judges,
}
use prompt_performance_engin.Evaluation.HardChecks.{HardChecks, Host, hard_checks}
use prompt_performance_engin.Evaluation.Judging.{Outcome, aggregate_judges, loss, tie}
use prompt_performance_engin.Prelude.Action.{Action, pure, lift, for_each, ◌>>=◌, ◌>>◌}
use prompt_performance_engin.Prelude.Result.{Result, ok, err, raise_if}
use prompt_performance_engin.Prelude.Value.{Value, ℤ}
use prompt_performance_engin.Prelude.Text.{is_blank}

-- What an executor returns: a plain value, or an `ExecutionOutput` with its text.
pub data Execution : Type 0 where
  plain : Value → Execution
  output : String → Execution

pub record Executor (W : Type 0) : Type 0 where
  pub execute : String → String → Action W Error Execution

pub record Judge (W : Type 0) : Type 0 where
  pub name : String
  pub judge : EvaluationCase → String → String → Action W Error JudgeDecision

-- `_normalize_execution`
unfoldable pub normalize_execution : Execution → Result Error String
normalize_execution (output text) = if is_blank text then err empty_output else ok text
normalize_execution (plain (Value.str text)) = if is_blank text then err empty_output else ok text
normalize_execution (plain value) = err empty_output

-- `_optimized_is_a`, where `first_byte` is the first byte of the digest of "seed:case_id".
unfoldable pub optimized_is_a : (ℤ → String → ℕ) → String → ℤ → Bool
optimized_is_a first_byte case_id seed = first_byte seed case_id % 2 == 0

pub record JudgeRecord : Type 0 where
  pub judge : String
  pub decision : JudgeDecision

pub record CaseRecord : Type 0 where
  pub case_id : String
  pub domain : String
  pub difficulty : String
  pub rubric : List String
  pub original_output : String
  pub optimized_output : String
  pub optimized_is_a : Bool
  pub original_checks : HardChecks
  pub optimized_checks : HardChecks
  pub judge_decisions : List JudgeRecord
  pub outcome : Outcome
  pub critical_regression : Bool
  pub fatal_flaw : Bool

-- What the loop over the judges leads to.
pub record Judged : Type 0 where
  pub judge_decisions : List JudgeRecord
  pub outcome : Outcome
  pub fatal_flaw : Bool

unfoldable pub verdict_of : Bool → List JudgeRecord → Judged
verdict_of is_a records =
    let (outcome, fatal) = aggregate_judges (map (λ (r : JudgeRecord). r.decision) records) is_a in
    record { judge_decisions = records; outcome = outcome; fatal_flaw = fatal }

unfoldable pub case_record :
    EvaluationCase → Bool → String → String → HardChecks → HardChecks → Judged → CaseRecord
case_record c is_a original optimized original_checks optimized_checks judged = record {
  case_id = c.case_id;
  domain = c.domain;
  difficulty = c.difficulty;
  rubric = c.rubric;
  original_output = original;
  optimized_output = optimized;
  optimized_is_a = is_a;
  original_checks = original_checks;
  optimized_checks = optimized_checks;
  judge_decisions = judged.judge_decisions;
  outcome = judged.outcome;
  critical_regression = original_checks.passed && not optimized_checks.passed;
  fatal_flaw = judged.fatal_flaw;
}

module _ {W : Type 0} where
  -- One round of the loop over the judges.
  unfoldable pub ask : EvaluationCase → String → String → Judge W → Action W Error JudgeRecord
  ask c output_a output_b j = do
    d ← j.judge c output_a output_b
    lift (validate_decision d)
    pure (record { judge = j.name; decision = d })

  -- `_normalize_execution(executor.execute(...))`
  unfoldable pub execute_prompt : Executor W → String → String → Action W Error String
  unfolding normalize_execution
  execute_prompt executor prompt input_text = do
    e ← executor.execute prompt input_text
    lift (normalize_execution e)

  -- The branches on the two hard checks; the judges are asked in the last one alone.
  unfoldable pub decide :
      EvaluationCase → List (Judge W) → Bool → Bool → Bool → String → String → Action W Error Judged
  unfolding verdict_of
  decide c judges original_passed optimized_passed is_a output_a output_b =
      if original_passed && not optimized_passed
      then pure (record { judge_decisions = []; outcome = loss; fatal_flaw = false })
      else if not original_passed && not optimized_passed
      then pure (record { judge_decisions = []; outcome = tie; fatal_flaw = false })
      else do records ← for_each (ask c output_a output_b) judges; pure (verdict_of is_a records)

module _ {W S : Type 0} where
  -- From the two outputs on.
  unfoldable pub evaluate_outputs :
      Host S
      → (ℤ → String → ℕ)
      → List (Judge W)
      → ℤ
      → Option S
      → EvaluationCase
      → String
      → String
      → Action W Error CaseRecord
  unfolding optimized_is_a
  evaluate_outputs host first_byte judges seed sandbox c original optimized = do
    original_checks ← lift (hard_checks host c original sandbox)
    optimized_checks ← lift (hard_checks host c optimized sandbox)
    let is_a = optimized_is_a first_byte c.case_id seed
    judged ←
        decide c judges original_checks.passed optimized_checks.passed is_a
          (if is_a then optimized else original) (if is_a then original else optimized)
    pure (case_record c is_a original optimized original_checks optimized_checks judged)

  unfoldable pub evaluate_case :
      Host S
      → (ℤ → String → ℕ)
      → Executor W
      → List (Judge W)
      → ℤ
      → Option S
      → String
      → String
      → EvaluationCase
      → Action W Error CaseRecord
  evaluate_case host first_byte executor judges seed sandbox original_prompt optimized_prompt c = do
    lift (validate_case c)
    lift (raise_if (ltb (length judges) 2) too_few_judges)
    original ← execute_prompt executor original_prompt c.input_text
    optimized ← execute_prompt executor optimized_prompt c.input_text
    evaluate_outputs host first_byte judges seed sandbox c original optimized
