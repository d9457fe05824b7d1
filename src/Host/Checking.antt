-- ===== src/Host/Checking.antt =====
-- The tests that `execute_attempt` of src/prompt_performance_engine/frontier_host.py makes of what
-- the runner returned.
use prompt_performance_engin.Prelude.{
  ℕ, Bool, true, false, ◌&&◌, String, str_eq, contains, List, [], ◌∷◌, if◌then◌else◌, leb, ◌==◌,
}
use prompt_performance_engin.Prelude.Result.{Result, ok, err, ◌>>◌, ensure, ◌>>=◌, raise_if}
use prompt_performance_engin.Prelude.Value.{Value, ℤ, obj}
use prompt_performance_engin.Prelude.Text.{is_blank}
use prompt_performance_engin.Budget.Amounts.{max_budget_value}
use prompt_performance_engin.Host.Attempt.{Request, ProviderAttemptResult}

-- `PROVIDER_RESULT_STATUSES`
abbrev pub provider_result_statuses : List String
provider_result_statuses =
    "success" ∷ "failure" ∷ "timeout" ∷ "refusal" ∷ "quota" ∷ "malformed" ∷ []

-- What a result with valid fields says.
pub record Checked : Type 0 where
  pub text : String
  pub status : String
  pub input_tokens : ℕ
  pub output_tokens : ℕ
  pub money_microunits : ℕ
  pub receipt_evidence : Value

unfoldable pub is_text : String → Value → Bool
is_text expected (Value.str s) = str_eq s expected
is_text expected value = false

-- `isinstance(value, int)` without `bool`, and equal to 1.
unfoldable pub is_one : Value → Bool
is_one (Value.int (ℤ.pos n)) = n == 1
is_one value = false

-- A `ValueError` or `TypeError` inside the `try`.
pub data Invalid : Type 0 where
  invalid_result : Invalid

unfoldable pub as_text : Value → Result Invalid String
as_text (Value.str s) = ok s
as_text value = err invalid_result

unfoldable pub as_status : Value → Result Invalid String
as_status (Value.str s) = if contains s provider_result_statuses then ok s else err invalid_result
as_status value = err invalid_result

unfoldable pub is_mapping : Value → Bool
is_mapping (obj fs) = true
is_mapping value = false

-- `_resource`
unfoldable pub resource : Value → Result Invalid ℕ
resource (Value.int (ℤ.pos n)) = if leb n max_budget_value then ok n else err invalid_result
resource value = err invalid_result

-- The tests of the identity and the shape of a result, and its figures.
unfoldable pub check_result : Request → ProviderAttemptResult → Result Invalid Checked
check_result request r = do
  ensure
      (is_text request.binding.provider r.provider
        && is_text request.slot.model_id r.model_id
        && is_one r.physical_attempts)
      invalid_result
  status ← as_status r.status
  text ← as_text r.text
  raise_if (str_eq status "success" && is_blank text) invalid_result
  ensure (is_mapping r.receipt_evidence) invalid_result
  i ← resource r.input_tokens
  o ← resource r.output_tokens
  m ← resource r.money_microunits
  ok (record {
    text = text;
    status = status;
    input_tokens = i;
    output_tokens = o;
    money_microunits = m;
    receipt_evidence = r.receipt_evidence;
  })
