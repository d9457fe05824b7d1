-- ===== src/Host/Finish.antt =====
-- `execute_attempt` of src/prompt_performance_engine/frontier_host.py, from the end of the call of
-- the runner: the result is judged, the charge is settled and the attempt is reported.
-- The source takes its lock for the receipt, in the ledger's `settle` and in `_record`: `finish` is the
-- three in turn, with no other thread in between.
use prompt_performance_engin.Prelude.{
  ℕ, Bool, true, false, ◌&&◌, String, str_eq, Option, none, some, List, [], ◌∷◌, ◌++◌,
  if◌then◌else◌,
}
use prompt_performance_engin.Prelude.Result.{Result, ok, err}
use prompt_performance_engin.Prelude.Value.{Value}
use prompt_performance_engin.Budget.Amounts.{Amounts, Error as LedgerError}
use prompt_performance_engin.Budget.Ledger.{Ledger, Event, settle}
use prompt_performance_engin.Budget.Behaviour.{is_breach}
use prompt_performance_engin.Host.Plan.{Frozen, Report, HostState, amounts_value}
use prompt_performance_engin.Host.Attempt.{
  Error, interrupted, ledger_refused, Digests, Dispatched, RunnerOutcome, VerifierAnswer,
}
use prompt_performance_engin.Host.Assess.{Assessment, assess, final_charge, observed_time}

abbrev pub receipt_value : Option String → Value
receipt_value none = Value.null
receipt_value (some s) = Value.str s

-- `self._receipts.add(verified)`
unfoldable pub add_receipt : Option String → List String → List String
add_receipt none receipts = receipts
add_receipt (some s) receipts = s ∷ receipts

abbrev pub is_none : {A : Type 0} → Option A → Bool
is_none none = true
is_none (some a) = false

-- `FrontierAttemptOutcome`
pub record AttemptOutcome : Type 0 where
  pub report : Report
  pub output_text : Option String

unfoldable pub report_of :
    Frozen → Digests → Dispatched → Assessment → Amounts → Bool → Option String → Report
report_of frozen digests d a charged usable failure_code = record {
  authority = frozen.authority;
  attempt_id = d.request.slot.slot_id;
  slot = d.request.slot;
  binding = d.request.binding;
  request_sha256 = digests.request_sha256 d.request;
  response_sha256 = a.response_sha256;
  provider_status = a.provider_status;
  usage = charged;
  receipt_sha256 = a.receipt;
  usable = usable;
  failure_code = failure_code;
}

-- The report is recorded; then a pending interrupt is raised again.
unfoldable pub conclude : Assessment → Report → HostState → Result Error AttemptOutcome × HostState
conclude a report s = (
  if a.is_interrupted
      then err interrupted
      else ok (record { report = report; output_text = if report.usable then a.text else none }),
  record s { reports = s.reports ++ report ∷ [] },
)

-- After the ledger has answered: a breach makes the attempt unusable, any other error is raised.
unfoldable pub after_settle :
    Frozen
    → Digests
    → Dispatched
    → Assessment
    → Amounts
    → HostState
    → Result LedgerError Event × Ledger
    → Result Error AttemptOutcome × HostState
unfolding conclude report_of
after_settle frozen digests d a charged s (ok event, l) =
    conclude a
      (report_of frozen digests d a charged
        (str_eq a.provider_status "success" && is_none a.failure_code) a.failure_code)
      (record s { ledger = l })
after_settle frozen digests d a charged s (err e, l) =
    if is_breach e
    then conclude a (report_of frozen digests d a charged false (some "budget_breach"))
        (record s { ledger = l })
    else (err (ledger_refused e), record s { ledger = l })

unfoldable pub settle_attempt :
    Frozen
    → Digests
    → Dispatched
    → Assessment
    → ℕ
    → HostState
    → Result Error AttemptOutcome × HostState
unfolding after_settle final_charge add_receipt
settle_attempt frozen digests d a observed s =
    let charged = final_charge d observed a.receipt a.charged in
    after_settle frozen digests d a charged
      (record s { receipts = add_receipt a.receipt s.receipts })
      (settle d.request.slot.slot_id (amounts_value charged) a.provider_status
        (receipt_value a.receipt) (Value.str d.reservation_token) s.ledger)

-- `execute_attempt`, from the end of the call of the runner.
unfoldable pub finish :
    Frozen
    → Digests
    → (Value → String → VerifierAnswer)
    → Dispatched
    → RunnerOutcome
    → Option ℕ
    → HostState
    → Result Error AttemptOutcome × HostState
unfolding settle_attempt assess observed_time
finish frozen digests verify d outcome elapsed s =
    settle_attempt frozen digests d
      (assess digests verify d (observed_time d elapsed) s.receipts outcome)
      (observed_time d elapsed) s
