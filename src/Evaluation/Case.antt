-- ===== src/Evaluation/Case.antt =====
-- The data of src/prompt_performance_engine/evaluation.py and their validation. Fields that only
-- reach digests (the metadata of a case, the execution settings) are left out.
use prompt_performance_engin.Prelude.{
  Bool, true, false, ◌||◌, List, Option, none, some, String, is_empty, str_eq, not, ◌==◌, ◌&&◌,
}
use prompt_performance_engin.Prelude.Value.{Value, obj, ℤ, pos, negsuc}
use prompt_performance_engin.Prelude.Result.{Result, ◌>>◌, ensure, raise_if}
use prompt_performance_engin.Prelude.Text.{is_blank}

pub data Error : Type 0 where
  empty_case_id empty_rubric bad_difficulty bad_max_characters : Error
  too_few_judges empty_output empty_suite_id no_cases : Error
  bad_winner empty_reason bad_fatal_flaw bad_metadata : Error
  -- `json.loads` raises neither a TypeError nor a ValueError
  json_failed : Error
  -- what an executor or a judge raises itself
  -- the search of `_contains_unnegated_forbidden` does not end
  endless_search : Error
  no_recorded_output no_decision_left called_failed : Error

-- `EvaluationCase`
pub record EvaluationCase : Type 0 where
  pub case_id : String
  pub input_text : String
  pub rubric : List String
  pub domain : String
  pub difficulty : String
  pub tags : List String
  pub required_substrings : List String
  pub forbidden_substrings : List String
  pub require_json : Bool
  pub max_characters : Option ℤ

-- `max_characters is not None and max_characters < 1`
unfoldable pub below_one : Option ℤ → Bool
below_one none = false
below_one (some (pos n)) = n == 0
below_one (some (negsuc n)) = true

-- `EvaluationCase.validate`
unfoldable pub validate_case : EvaluationCase → Result Error Unit
unfolding is_blank below_one
validate_case c = do
  raise_if (is_blank c.case_id) empty_case_id
  raise_if (is_empty c.rubric) empty_rubric
  ensure
      (str_eq c.difficulty "normal"
        || str_eq c.difficulty "difficult"
        || str_eq c.difficulty "adversarial")
      bad_difficulty
  raise_if (below_one c.max_characters) bad_max_characters

-- `JudgeDecision`, with values as a judge may fill them in.
pub record JudgeDecision : Type 0 where
  pub winner : Value
  pub reason : Value
  pub fatal_flaw_a : Value
  pub fatal_flaw_b : Value
  pub metadata : Value

-- `value == text`
abbrev pub is_text : String → Value → Bool
is_text text (Value.str s) = str_eq s text
is_text text _ = false

abbrev pub is_filled : Value → Bool
is_filled (Value.str s) = not (is_blank s)
is_filled _ = false

abbrev pub is_bool : Value → Bool
is_bool (Value.bool b) = true
is_bool _ = false

abbrev pub is_object : Value → Bool
is_object (obj fs) = true
is_object _ = false

-- The truth of a flag, which is a `bool` once the decision is valid.
abbrev pub holds : Value → Bool
holds (Value.bool b) = b
holds _ = false

-- `JudgeDecision.validate`
unfoldable pub validate_decision : JudgeDecision → Result Error Unit
validate_decision d = do
  ensure (is_text "A" d.winner || is_text "B" d.winner || is_text "tie" d.winner) bad_winner
  ensure (is_filled d.reason) empty_reason
  ensure (is_bool d.fatal_flaw_a && is_bool d.fatal_flaw_b) bad_fatal_flaw
  ensure (is_object d.metadata) bad_metadata
