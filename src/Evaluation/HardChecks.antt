-- ===== src/Evaluation/HardChecks.antt =====
-- `_hard_checks` of src/prompt_performance_engine/evaluation.py. The case-folding of Unicode, `json.loads`,
-- the regular expressions, the verifiers of software outputs and the domain checks are functions
-- given to the model. A search that does not end is an error of its own.
use prompt_performance_engin.Prelude.{
  Bool, false, not, List, [], ◌∷◌, ◌++◌, map, Option, none, some, String, length, leb, ℕ,
  if◌then◌else◌, true,
}
use prompt_performance_engin.Checks.Record.{Check, all_passed}
use prompt_performance_engin.Evaluation.Case.{EvaluationCase, Error, endless_search, json_failed}
use prompt_performance_engin.Prelude.Result.{Result, ◌>>=◌, err, traverse, ok}
use prompt_performance_engin.Prelude.Text.{occurs_in, codes}
use prompt_performance_engin.Checks.CaseChecks.{run_case_checks, Verifier}
use prompt_performance_engin.Evaluation.Forbidden.{Patterns, contains_unnegated_forbidden}
use prompt_performance_engin.Prelude.Value.{ℤ, pos, negsuc}

-- How `json.loads` ends: it returns, it raises a TypeError or a ValueError, or something else, as a
-- RecursionError on text that is nested too deeply.
pub data Loading : Type 0 where
  loaded refused broken : Loading

pub record Host (S : Type 0) : Type 0 where
  pub casefold : String → List ℕ
  pub load_json : String → Loading
  pub patterns : Patterns
  pub verify : Verifier → String → Option S → Bool
  pub domain_checks : String → String → String → List Check

pub record HardChecks : Type 0 where
  pub passed : Bool
  pub checks : List Check

-- `len(output) <= case.max_characters`
unfoldable pub fits : ℕ → ℤ → Bool
fits n (pos limit) = leb n limit
fits n (negsuc limit) = false

module _ {S : Type 0} (host : Host S) where
  unfoldable pub required_check : String → String → Check
  unfolding occurs_in
  required_check output required = record {
    check = "required_substring";
    passed = occurs_in (host.casefold required) (host.casefold output);
    authoritative = none;
  }

  unfoldable pub forbidden_check : String → String → Result Error Check
  forbidden_check output forbidden =
      elim (contains_unnegated_forbidden host.patterns (host.casefold output)
        (host.casefold forbidden)) [
          | none ↦ err endless_search
          | some found ↦
              ok
                (record { check = "forbidden_substring"; passed = not found; authoritative = none })
        ]

  unfoldable pub json_check : EvaluationCase → String → Result Error (List Check)
  json_check c output =
      if c.require_json
      then elim (host.load_json output) [
        | loaded ↦ ok (record { check = "valid_json"; passed = true; authoritative = none } ∷ [])
        | refused ↦ ok (record { check = "valid_json"; passed = false; authoritative = none } ∷ [])
        | broken ↦ err json_failed
      ]
      else ok []

  unfoldable pub length_check : EvaluationCase → String → List Check
  unfolding fits
  length_check c output = elim c.max_characters [
    | none ↦ []
    | some limit ↦
        record {
          check = "max_characters";
          passed = fits (length (codes output)) limit;
          authoritative = none;
        }
        ∷ []
  ]

  -- The entries behind the JSON check.
  unfoldable pub later_checks : EvaluationCase → String → Option S → List Check
  unfolding length_check
  later_checks c output sandbox =
      length_check c output
      ++ (host.domain_checks c.domain c.input_text output
          ++ run_case_checks host.verify c.case_id output sandbox)

  unfoldable pub hard_checks : EvaluationCase → String → Option S → Result Error HardChecks
  unfolding required_check forbidden_check json_check later_checks
  hard_checks c output sandbox = do
    forbidden ← traverse (forbidden_check output) c.forbidden_substrings
    json ← json_check c output
    let checks =
        map (required_check output) c.required_substrings
        ++ (forbidden ++ (json ++ later_checks c output sandbox))
    ok (record { passed = all_passed checks; checks = checks })
