-- ===== src/Host/Assess.antt =====
-- The `try` statement of `execute_attempt` of src/prompt_performance_engine/frontier_host.py: what
-- the attempt is taken for, and what is charged.
use prompt_performance_engin.Prelude.{
  ℕ, min, max, Bool, true, false, String, str_eq, contains, Option, none, some, List, if◌then◌else◌,
}
use prompt_performance_engin.Prelude.Result.{Result, ok, err}
use prompt_performance_engin.Prelude.Value.{Value}
use prompt_performance_engin.Prelude.Text.{is_sha256}
use prompt_performance_engin.Budget.Amounts.{Amounts, tabulate, wall_clock_ms, max_budget_value}
use prompt_performance_engin.Host.Attempt.{
  Digests, Dispatched, RunnerOutcome, VerifierAnswer, returned, returned_other, raised_invalid,
  timed_out, raised, stopped, answered, verifier_raised, verifier_stopped,
}
use prompt_performance_engin.Host.Checking.{Checked, Invalid, check_result}

-- What the `try` statement leaves in the variables. `receipt` is also what makes the usage
-- authoritative; `text` is that of `result`.
pub record Assessment : Type 0 where
  pub provider_status : String
  pub failure_code : Option String
  pub response_sha256 : Option String
  pub receipt : Option String
  pub charged : Amounts
  pub text : Option String
  pub is_interrupted : Bool

-- An `except` clause.
unfoldable pub failed : String → String → Option String → Amounts → Bool → Assessment
failed status code response_sha256 charged is_interrupted = record {
  provider_status = status;
  failure_code = some code;
  response_sha256 = response_sha256;
  receipt = none;
  charged = charged;
  text = none;
  is_interrupted = is_interrupted;
}

-- The rest of the `try` statement, by what is missing for a receipt, or by the receipt.
unfoldable pub unverified : Checked → String → Amounts → String → Assessment
unverified c digest charged code = record {
  provider_status = c.status;
  failure_code = some code;
  response_sha256 = some digest;
  receipt = none;
  charged = charged;
  text = some c.text;
  is_interrupted = false;
}

unfoldable pub verified : Checked → String → Amounts → String → Assessment
verified c digest charged receipt = record {
  provider_status = c.status;
  failure_code = if str_eq c.status "success" then none else some c.status;
  response_sha256 = some digest;
  receipt = some receipt;
  charged = charged;
  text = some c.text;
  is_interrupted = false;
}

unfoldable pub assess_receipt :
    Checked → String → Amounts → VerifierAnswer → List String → Assessment
unfolding unverified verified failed
assess_receipt c digest charged (answered (Value.str receipt)) receipts =
    if is_sha256 receipt
    then (if contains receipt receipts
        then unverified c digest charged "receipt_reused"
        else verified c digest charged receipt)
    else unverified c digest charged "receipt_unverified"
assess_receipt c digest charged (answered value) receipts =
    unverified c digest charged "receipt_unverified"
assess_receipt c digest charged verifier_raised receipts =
    unverified c digest charged "receipt_unverified"
assess_receipt c digest charged verifier_stopped receipts =
    failed "cancelled_after_call" "host_interrupted" (some digest) charged true

-- The usage that a result reports, with the time that the host has observed.
unfoldable pub reported_usage : Checked → ℕ → Amounts
reported_usage c observed = tabulate 1 c.input_tokens c.output_tokens c.money_microunits observed

unfoldable pub assess_result :
    Digests
    → (Value → String → VerifierAnswer)
    → Dispatched
    → ℕ
    → List String
    → Result Invalid Checked
    → Assessment
unfolding failed
assess_result digests verify d observed receipts (ok c) =
    let charged = reported_usage c observed in
    let digest = digests.response_sha256 c.text in
    assess_receipt c digest charged
      (verify c.receipt_evidence (digests.context_sha256 d.request digest c.status charged))
      receipts
assess_result digests verify d observed receipts (err e) =
    failed "malformed" "invalid_provider_result" none d.component.maximums false

unfoldable pub assess :
    Digests
    → (Value → String → VerifierAnswer)
    → Dispatched
    → ℕ
    → List String
    → RunnerOutcome
    → Assessment
unfolding failed
assess digests verify d observed receipts (returned r) =
    assess_result digests verify d observed receipts (check_result d.request r)
assess digests verify d observed receipts returned_other =
    failed "malformed" "invalid_provider_result" none d.component.maximums false
assess digests verify d observed receipts raised_invalid =
    failed "malformed" "invalid_provider_result" none d.component.maximums false
assess digests verify d observed receipts timed_out =
    failed "timeout" "provider_timeout" none d.component.maximums false
assess digests verify d observed receipts raised =
    failed "failure" "provider_exception" none d.component.maximums false
assess digests verify d observed receipts stopped =
    failed "cancelled_after_call" "host_interrupted" none d.component.maximums true

-- Without a receipt the whole reservation is charged, and at least the time observed.
unfoldable pub final_charge : Dispatched → ℕ → Option String → Amounts → Amounts
final_charge d observed (some receipt) charged axis = charged axis
final_charge d observed none charged wall_clock_ms =
    max (d.component.maximums wall_clock_ms) observed
final_charge d observed none charged axis = d.component.maximums axis

-- `min(MAX_RESOURCE_VALUE, elapsed)`, or the fallback when the clock fails.
unfoldable pub observed_time : Dispatched → Option ℕ → ℕ
observed_time d none = d.component.maximums wall_clock_ms
observed_time d (some elapsed) = min max_budget_value elapsed
