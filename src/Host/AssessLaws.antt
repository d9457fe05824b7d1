-- ===== src/Host/AssessLaws.antt =====
-- What the judgement of a runner's result is good for, whatever the runner and the verifier do.
use prompt_performance_engin.Prelude.{
  ℕ, ◌≤◌, ◌≡◌, refl, Bool, true, false, String, contains, Option, none, some, List, arith,
  if_induction, subst, Bool-cases, sym, inl, ◌∙◌, inr,
}
use prompt_performance_engin.Prelude.Value.{Value, ℤ}
use prompt_performance_engin.Prelude.Text.{is_sha256}
use prompt_performance_engin.Prelude.Result.{
  Result, ok, err, ensure, raise_if, last_of_two, returned_by, ok_eq,
}
use prompt_performance_engin.Budget.Amounts.{
  Axis, Amounts, max_budget_value, calls, input_tokens, output_tokens, money_microunits,
  wall_clock_ms,
}
use prompt_performance_engin.Budget.Ledger.{terminal_statuses, checked_receipt}
use prompt_performance_engin.Host.Attempt.{
  Request, Digests, Dispatched, ProviderAttemptResult, RunnerOutcome, VerifierAnswer, returned,
  returned_other, raised_invalid, timed_out, raised, stopped, answered, verifier_raised,
  verifier_stopped,
}
use prompt_performance_engin.Host.Finish.{receipt_value, is_none}
use prompt_performance_engin.Host.Invariant.{IsSized}
use prompt_performance_engin.Host.Assess.{
  Assessment, assess, assess_receipt, assess_result, final_charge, observed_time, reported_usage,
  unverified, verified, failed,
}
use prompt_performance_engin.Host.Checking.{
  Checked, Invalid, as_status, check_result, provider_result_statuses, resource, invalid_result,
  as_text, is_mapping,
}

-- Without a receipt there is a failure; a receipt is new, and the usage with it is one that the
-- ledger takes.
abbrev pub Backed : List String → Assessment → Option String → Type 0
Backed receipts a none = is_none a.failure_code ≡ false
Backed receipts a (some r) = (contains r receipts ≡ false) × IsSized a.charged

pub record IsAssessed (receipts : List String) (a : Assessment) : Type 0 where
  pub known : contains a.provider_status terminal_statuses ≡ true
  pub digest : checked_receipt (receipt_value a.receipt) ≡ ok a.receipt
  pub backed : Backed receipts a a.receipt

failed-IsAssessed :
    (status code : String) (digest : Option String) (charged : Amounts) (b : Bool)
    (receipts : List String)
    → contains status terminal_statuses ≡ true
    → IsAssessed receipts (failed status code digest charged b)
unfolding failed checked_receipt
failed-IsAssessed status code digest charged b receipts h = record {
  known = h;
  digest = refl;
  backed = refl;
}

unverified-IsAssessed :
    (c : Checked) (digest : String) (charged : Amounts) (code : String) (receipts : List String)
    → contains c.status terminal_statuses ≡ true
    → IsAssessed receipts (unverified c digest charged code)
unfolding unverified checked_receipt
unverified-IsAssessed c digest charged code receipts h = record {
  known = h;
  digest = refl;
  backed = refl;
}

verified-IsAssessed :
    (c : Checked) (digest : String) (charged : Amounts) (receipt : String) (receipts : List String)
    → contains c.status terminal_statuses ≡ true
    → is_sha256 receipt ≡ true
    → contains receipt receipts ≡ false
    → IsSized charged
    → IsAssessed receipts (verified c digest charged receipt)
unfolding verified checked_receipt
verified-IsAssessed c digest charged receipt receipts h sha new v = record {
  known = h;
  digest = rw sha refl;
  backed = (new, v);
}

assess_receipt-IsAssessed :
    (c : Checked) (digest : String) (charged : Amounts) (answer : VerifierAnswer)
    (receipts : List String)
    → contains c.status terminal_statuses ≡ true
    → IsSized charged
    → IsAssessed receipts (assess_receipt c digest charged answer receipts)
unfolding assess_receipt
assess_receipt-IsAssessed c digest charged (answered (Value.str receipt)) receipts h v =
    if_induction (IsAssessed receipts) (is_sha256 receipt)
      (λ sha.
        if_induction (IsAssessed receipts) (contains receipt receipts)
          (λ used. unverified-IsAssessed c digest charged "receipt_reused" receipts h)
          (λ new. verified-IsAssessed c digest charged receipt receipts h sha new v))
      (λ e. unverified-IsAssessed c digest charged "receipt_unverified" receipts h)
assess_receipt-IsAssessed c digest charged (answered _) receipts h v =
    unverified-IsAssessed c digest charged "receipt_unverified" receipts h
assess_receipt-IsAssessed c digest charged verifier_raised receipts h v =
    unverified-IsAssessed c digest charged "receipt_unverified" receipts h
assess_receipt-IsAssessed c digest charged verifier_stopped receipts h v =
    failed-IsAssessed "cancelled_after_call" "host_interrupted" (some digest) charged true receipts
      refl

-- A result that passes the tests has a known status and figures in range.
abbrev pub IsInRange : Checked → Type 0
IsInRange c =
    (contains c.status terminal_statuses ≡ true)
    × (c.input_tokens ≤ max_budget_value)
    × (c.output_tokens ≤ max_budget_value)
    × (c.money_microunits ≤ max_budget_value)

result_statuses_known :
    (s : String) → contains s provider_result_statuses ≡ true → contains s terminal_statuses ≡ true
result_statuses_known s h = ground arith

refused_status : (s : String) → ◌≡◌ {A = Result Invalid String} (err invalid_result) (ok s) → ⊥
refused_status s h = cc

as_status-known :
    (v : Value) (s : String) → as_status v ≡ ok s → contains s terminal_statuses ≡ true
unfolding as_status
as_status-known (Value.str t) s h = elim (Bool-cases (contains t provider_result_statuses)) [
  | inl e ↦
      subst (λ x. contains x terminal_statuses ≡ true) {x = t} (ok_eq (sym (rw e refl) ∙ h))
        (result_statuses_known t e)
  | inr e ↦ absurd (refused_status s (sym (rw e refl) ∙ h))
]
as_status-known _ s h = cc

pub resource-le : (v : Value) (n : ℕ) → resource v ≡ ok n → n ≤ max_budget_value
unfolding resource
resource-le (Value.int (ℤ.pos m)) n h = ground arith
resource-le _ n h = cc

pub check_result-IsInRange :
    (request : Request) (r : ProviderAttemptResult) (c : Checked)
    → check_result request r ≡ ok c
    → IsInRange c
unfolding check_result
check_result-IsInRange request r c h =
    let (h1, t1, e1) = last_of_two (ensure _ invalid_result) _ c h in
    let (status, h2, e2) = returned_by (as_status r.status) _ c h1 in
    let (text, h3, e3) = returned_by (as_text r.text) _ c h2 in
    let (h4, t4, e4) = last_of_two (raise_if _ invalid_result) _ c h3 in
    let (h5, t5, e5) = last_of_two (ensure (is_mapping r.receipt_evidence) invalid_result) _ c h4 in
    let (i, h6, e6) = returned_by (resource r.input_tokens) _ c h5 in
    let (o, h7, e7) = returned_by (resource r.output_tokens) _ c h6 in
    let (m, h8, e8) = returned_by (resource r.money_microunits) _ c h7 in
    subst IsInRange (ok_eq h8) (
      as_status-known r.status status e2,
      resource-le r.input_tokens i e6,
      resource-le r.output_tokens o e7,
      resource-le r.money_microunits m e8,
    )

reported_usage-small :
    (c : Checked) (observed : ℕ) (x : Axis)
    → IsInRange c
    → observed ≤ max_budget_value
    → reported_usage c observed x ≤ max_budget_value
unfolding reported_usage
reported_usage-small c observed calls (known, i, o, m) h = omega arith
reported_usage-small c observed input_tokens (known, i, o, m) h = i
reported_usage-small c observed output_tokens (known, i, o, m) h = o
reported_usage-small c observed money_microunits (known, i, o, m) h = m
reported_usage-small c observed wall_clock_ms (known, i, o, m) h = h

reported_usage-IsSized :
    (c : Checked) (observed : ℕ)
    → IsInRange c
    → observed ≤ max_budget_value
    → IsSized (reported_usage c observed)
unfolding reported_usage
reported_usage-IsSized c observed v h = record {
  one = refl;
  small = λ x. reported_usage-small c observed x v h;
}

assess_result-IsAssessed :
    (digests : Digests) (verify : Value → String → VerifierAnswer) (d : Dispatched) (observed : ℕ)
    (receipts : List String) (o : Result Invalid Checked)
    → ((c : Checked) → o ≡ ok c → IsInRange c)
    → observed ≤ max_budget_value
    → IsAssessed receipts (assess_result digests verify d observed receipts o)
unfolding assess_result
assess_result-IsAssessed digests verify d observed receipts (ok c) range h =
    assess_receipt-IsAssessed c (digests.response_sha256 c.text) (reported_usage c observed) _
      receipts (range c refl).0 (reported_usage-IsSized c observed (range c refl) h)
assess_result-IsAssessed digests verify d observed receipts (err e) range h =
    failed-IsAssessed "malformed" "invalid_provider_result" none d.component.maximums false receipts
      refl

pub assess-IsAssessed :
    (digests : Digests) (verify : Value → String → VerifierAnswer) (d : Dispatched) (observed : ℕ)
    (receipts : List String) (outcome : RunnerOutcome)
    → observed ≤ max_budget_value
    → IsAssessed receipts (assess digests verify d observed receipts outcome)
unfolding assess
assess-IsAssessed digests verify d observed receipts (returned r) h =
    assess_result-IsAssessed digests verify d observed receipts (check_result d.request r)
      (check_result-IsInRange d.request r) h
assess-IsAssessed digests verify d observed receipts returned_other h =
    failed-IsAssessed "malformed" "invalid_provider_result" none d.component.maximums false receipts
      refl
assess-IsAssessed digests verify d observed receipts raised_invalid h =
    failed-IsAssessed "malformed" "invalid_provider_result" none d.component.maximums false receipts
      refl
assess-IsAssessed digests verify d observed receipts timed_out h =
    failed-IsAssessed "timeout" "provider_timeout" none d.component.maximums false receipts refl
assess-IsAssessed digests verify d observed receipts raised h =
    failed-IsAssessed "failure" "provider_exception" none d.component.maximums false receipts refl
assess-IsAssessed digests verify d observed receipts stopped h =
    failed-IsAssessed "cancelled_after_call" "host_interrupted" none d.component.maximums true
      receipts refl

pub observed_time-le :
    (d : Dispatched) (elapsed : Option ℕ)
    → IsSized d.component.maximums
    → observed_time d elapsed ≤ max_budget_value
unfolding observed_time
observed_time-le d none v = v.small wall_clock_ms
observed_time-le d (some n) v = ground arith

final_charge-small :
    (d : Dispatched) (observed : ℕ) (x : Axis)
    → IsSized d.component.maximums
    → observed ≤ max_budget_value
    → (charged : Amounts) → final_charge d observed none charged x ≤ max_budget_value
unfolding final_charge
final_charge-small d observed calls v h charged = v.small calls
final_charge-small d observed input_tokens v h charged = v.small input_tokens
final_charge-small d observed output_tokens v h charged = v.small output_tokens
final_charge-small d observed money_microunits v h charged = v.small money_microunits
final_charge-small d observed wall_clock_ms v h charged = ground (arith, v.small wall_clock_ms)

final_charge-receipt :
    (d : Dispatched) (observed : ℕ) (r : String) (charged : Amounts)
    → final_charge d observed (some r) charged ≡ charged
unfolding final_charge
final_charge-receipt d observed r charged = refl

-- What is charged in the end is an amount that the ledger takes.
pub final_charge-IsSized :
    (d : Dispatched) (observed : ℕ) (receipts : List String) (a : Assessment)
    (receipt : Option String)
    → IsSized d.component.maximums
    → observed ≤ max_budget_value
    → Backed receipts a receipt
    → IsSized (final_charge d observed receipt a.charged)
unfolding final_charge
final_charge-IsSized d observed receipts a none v h b = record {
  one = v.one;
  small = λ x. final_charge-small d observed x v h a.charged;
}
final_charge-IsSized d observed receipts a (some r) v h (new, sized) =
    subst IsSized (sym (final_charge-receipt d observed r a.charged)) sized
