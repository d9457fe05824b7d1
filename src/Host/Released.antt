-- ===== src/Host/Released.antt =====
-- What an attempt charges, and when its output is released.
use prompt_performance_engin.Prelude.{
  ℕ, ◌+◌, ◌≤◌, ◌≡◌, refl, ap, sym, subst, false, String, contains, Option, none, some, List, [],
  ◌∷◌, ◌++◌, arith, if_induction,
}
use prompt_performance_engin.Prelude.Value.{Value}
use prompt_performance_engin.Prelude.Text.{is_sha256}
use prompt_performance_engin.Prelude.Result.{Result, ok, err}
use prompt_performance_engin.Budget.Amounts.{
  Axis, Amounts, max_budget_value, calls, input_tokens, output_tokens, money_microunits,
  wall_clock_ms, Error as LedgerError,
}
use prompt_performance_engin.Budget.Ledger.{
  Ledger, Event, settle_claimed, settlement, is_over, charge,
}
use prompt_performance_engin.Budget.Behaviour.{is_breach}
use prompt_performance_engin.Host.Plan.{Frozen, HostState, Report}
use prompt_performance_engin.Host.Attempt.{
  Digests, Dispatched, ProviderAttemptResult, RunnerOutcome, VerifierAnswer, returned, answered,
  verifier_raised, verifier_stopped,
}
use prompt_performance_engin.Host.Finish.{
  settle_attempt, after_settle, conclude, report_of, add_receipt,
}
use prompt_performance_engin.Host.Steps.{attempt_of, find_flight}
use prompt_performance_engin.Host.Invariant.{IsConsistent}
use prompt_performance_engin.Host.AssessLaws.{IsAssessed}
use prompt_performance_engin.Host.FinishLaws.{settle_attempt-settle_claimed}
use prompt_performance_engin.Host.Assess.{
  Assessment, assess, assess_receipt, assess_result, final_charge, unverified, verified, failed,
  reported_usage,
}
use prompt_performance_engin.Host.Checking.{Checked, check_result, Invalid}

-- Without a receipt the whole reservation is charged, or more.
final_charge-le :
    (d : Dispatched) (observed : ℕ) (charged : Amounts) (x : Axis)
    → d.component.maximums x ≤ final_charge d observed none charged x
unfolding final_charge
final_charge-le d observed charged calls = omega arith
final_charge-le d observed charged input_tokens = omega arith
final_charge-le d observed charged output_tokens = omega arith
final_charge-le d observed charged money_microunits = omega arith
final_charge-le d observed charged wall_clock_ms = ground arith

unreceipted :
    (d : Dispatched) (observed : ℕ) (charged : Amounts) (o : Option String)
    → o ≡ none
    → (x : Axis) → d.component.maximums x ≤ final_charge d observed o charged x
unreceipted d observed charged none h x = final_charge-le d observed charged x
unreceipted d observed charged (some r) h x = cc

-- The last of the reports is on this attempt: the ledger has spent what it says, which without a
-- receipt is the whole reservation at least.
abbrev pub IsBooked : HostState → Dispatched → HostState → Type 0
IsBooked s d t =
    (r : Report) × (t.reports ≡ s.reports ++ r ∷ [])
    × (r.attempt_id ≡ attempt_of d)
    × ((x : Axis) → t.ledger.consumed x ≡ s.ledger.consumed x + r.usage x)
    × (r.receipt_sha256 ≡ none → (x : Axis) → d.component.maximums x ≤ r.usage x)

-- What the judgement says when it has the receipt `q`.
abbrev pub IsReceipted :
    Digests
    → (Value → String → VerifierAnswer)
    → Dispatched
    → ℕ
    → List String
    → RunnerOutcome
    → Assessment
    → String
    → Type 0
IsReceipted digests verify d observed receipts outcome a q =
    (r : ProviderAttemptResult) × (c : Checked) × (outcome ≡ returned r)
    × (check_result d.request r ≡ ok c)
    × (a.text ≡ some c.text)
    × (a.provider_status ≡ c.status)
    × (verify c.receipt_evidence (
          digests.context_sha256 d.request (digests.response_sha256 c.text) c.status
            (reported_usage c observed))
        ≡ answered (Value.str q))
    × (contains q receipts ≡ false)

some_string : {p q : String} → ◌≡◌ {A = Option String} (some p) (some q) → p ≡ q
some_string h = cc

-- A receipt is that of the verifier, and it is new.
abbrev IsFromReceipt : Checked → VerifierAnswer → List String → String → Assessment → Type 0
IsFromReceipt c answer receipts q a =
    a.receipt ≡ some q
    → (a.text ≡ some c.text)
      × (a.provider_status ≡ c.status)
      × (answer ≡ answered (Value.str q))
      × (contains q receipts ≡ false)

unverified-IsFromReceipt :
    (c : Checked) (digest : String) (charged : Amounts) (answer : VerifierAnswer)
    (receipts : List String) (q code : String)
    → IsFromReceipt c answer receipts q (unverified c digest charged code)
unfolding unverified
unverified-IsFromReceipt c digest charged answer receipts q code h = cc

verified-IsFromReceipt :
    (c : Checked) (digest : String) (charged : Amounts) (receipts : List String) (p q : String)
    → contains p receipts ≡ false
    → IsFromReceipt c (answered (Value.str p)) receipts q (verified c digest charged p)
unfolding verified
verified-IsFromReceipt c digest charged receipts p q new h =
    let same = some_string h in
    (
      refl,
      refl,
      ap (λ x. answered (Value.str x)) same,
      subst (λ x. contains x receipts ≡ false) same new,
    )

assess_receipt-IsFromReceipt :
    (c : Checked) (digest : String) (charged : Amounts) (answer : VerifierAnswer)
    (receipts : List String) (q : String)
    → IsFromReceipt c answer receipts q (assess_receipt c digest charged answer receipts)
unfolding assess_receipt failed
assess_receipt-IsFromReceipt c digest charged (answered (Value.str p)) receipts q =
    if_induction (IsFromReceipt c (answered (Value.str p)) receipts q) (is_sha256 p)
      (λ sha.
        if_induction (IsFromReceipt c (answered (Value.str p)) receipts q) (contains p receipts)
          (λ used. unverified-IsFromReceipt c digest charged _ receipts q "receipt_reused")
          (λ new. verified-IsFromReceipt c digest charged receipts p q new))
      (λ e. unverified-IsFromReceipt c digest charged _ receipts q "receipt_unverified")
assess_receipt-IsFromReceipt c digest charged (answered v) receipts q =
    unverified-IsFromReceipt c digest charged (answered v) receipts q "receipt_unverified"
assess_receipt-IsFromReceipt c digest charged verifier_raised receipts q =
    unverified-IsFromReceipt c digest charged verifier_raised receipts q "receipt_unverified"
assess_receipt-IsFromReceipt c digest charged verifier_stopped receipts q = λ h. cc

module _ (digests : Digests) (verify : Value → String → VerifierAnswer) (d : Dispatched)
    (observed : ℕ) (receipts : List String) (q : String) where
  assess_result-IsReceipted :
      (r : ProviderAttemptResult) (o : Result Invalid Checked)
      → check_result d.request r ≡ o
      → (assess_result digests verify d observed receipts o).receipt ≡ some q
      → IsReceipted digests verify d observed receipts
          (returned r)
          (assess_result digests verify d observed receipts o)
          q
  unfolding assess_result failed
  assess_result-IsReceipted r (ok c) e h =
      let (text, status, answer, new) =
        assess_receipt-IsFromReceipt c (digests.response_sha256 c.text) (reported_usage c observed)
          _ receipts q h in
      (r, c, refl, e, text, status, answer, new)
  assess_result-IsReceipted r (err x) e h = cc

  pub assess-IsReceipted :
      (outcome : RunnerOutcome)
      → (assess digests verify d observed receipts outcome).receipt ≡ some q
      → IsReceipted digests verify d observed receipts outcome
          (assess digests verify d observed receipts outcome)
          q
  unfolding assess failed
  assess-IsReceipted (returned r) h = assess_result-IsReceipted r (check_result d.request r) refl h
  assess-IsReceipted _ h = cc

module _ (frozen : Frozen) (digests : Digests) (ds : List Dispatched) (s : HostState)
    (v : IsConsistent frozen (record { host = s; in_flight = ds })) (d : Dispatched)
    (found : find_flight (attempt_of d) ds ≡ some d) where
  pub settle_attempt-IsBooked :
      (a : Assessment) (observed : ℕ)
      → IsAssessed s.receipts a
      → observed ≤ max_budget_value
      → IsBooked s d (settle_attempt frozen digests d a observed s).1
  unfolding settle_attempt after_settle conclude report_of settle_claimed is_breach charge
  settle_attempt-IsBooked a observed assessed h =
      let charged = final_charge d observed a.receipt a.charged in
      let answer =
        settle_attempt-settle_claimed frozen digests ds s v d found a observed assessed h in
      let P = λ (o : Result LedgerError Event × Ledger).
        IsBooked s d
          (after_settle frozen digests d a charged
            (record s { receipts = add_receipt a.receipt s.receipts }) o).1 in
      subst P (sym answer) (
        if_induction P
          (is_over (
            settlement (attempt_of d) d.component.maximums charged a.provider_status a.receipt
              s.ledger))
          (λ over. (_, refl, refl, λ x. refl, λ e. unreceipted d observed a.charged a.receipt e))
          (λ under. (_, refl, refl, λ x. refl, λ e. unreceipted d observed a.charged a.receipt e)))
