-- ===== src/Host/Output.antt =====
-- When `execute_attempt` of src/prompt_performance_engine/frontier_host.py gives out what the runner
-- wrote, and what it books.
use prompt_performance_engin.Budget.Amounts.{Error as LedgerError, max_budget_value}
use prompt_performance_engin.Host.Invariant.{IsConsistent, IsPlanned, find_flight-All, IsReady}
use prompt_performance_engin.Prelude.{
  ◌≤◌, Bool, Option, String, if◌then◌else◌, ◌≡◌, false, none, some, refl, true, List, sym, ℕ, ◌∙◌,
  ap, subst, if_induction, str_eq, ◌&&◌, contains,
}
use prompt_performance_engin.Host.Attempt.{
  Dispatched, Digests, Error, interrupted, VerifierAnswer, RunnerOutcome, ProviderAttemptResult,
  returned, answered,
}
use prompt_performance_engin.Host.Finish.{
  AttemptOutcome, conclude, is_none, after_settle, settle_attempt, report_of, add_receipt, finish,
}
use prompt_performance_engin.Host.Plan.{Frozen, HostState, Report}
use prompt_performance_engin.Prelude.Result.{Result, ok, err}
use prompt_performance_engin.Budget.Amounts.{Axis, Amounts}
use prompt_performance_engin.Budget.Ledger.{settle_claimed, Event, Ledger, is_over, settlement}
use prompt_performance_engin.Budget.Behaviour.{is_breach}
use prompt_performance_engin.Host.AssessLaws.{IsAssessed, observed_time-le, assess-IsAssessed}
use prompt_performance_engin.Host.FinishLaws.{success_receipted, settle_attempt-settle_claimed}
use prompt_performance_engin.Host.Steps.{find_flight, attempt_of, System, Reach, opening}
use prompt_performance_engin.Budget.Soundness.{settled_within}
use prompt_performance_engin.Prelude.Value.{Value}
use prompt_performance_engin.Host.Laws.{Reach-IsConsistent}
use prompt_performance_engin.Host.Released.{IsBooked, settle_attempt-IsBooked, assess-IsReceipted}
use prompt_performance_engin.Host.Assess.{
  Assessment, assess, final_charge, observed_time, reported_usage,
}
use prompt_performance_engin.Host.Checking.{Checked, check_result}

some_text : {s t : String} → ◌≡◌ {A = Option String} (some s) (some t) → s ≡ t
some_text h = cc

uninterrupted :
    (b : Bool) (x o : AttemptOutcome)
    → ◌≡◌ {A = Result Error AttemptOutcome} (if b then err interrupted else ok x) (ok o)
    → x ≡ o
uninterrupted true x o h = cc
uninterrupted false x o h = cc

output_of_usable :
    (b : Bool) (o : Option String) (t : String)
    → (if b then o else none) ≡ some t
    → (b ≡ true) × (o ≡ some t)
output_of_usable true o t h = (refl, h)
output_of_usable false o t h = cc

-- An outcome with an output is that of a usable report.
conclude-output :
    (a : Assessment) (report : Report) (s : HostState) (o : AttemptOutcome) (t : String)
    → (conclude a report s).0 ≡ ok o
    → o.output_text ≡ some t
    → (report.usable ≡ true) × (a.text ≡ some t) × (o.report ≡ report)
unfolding conclude
conclude-output a report s o t h out =
    let same : record { report = report; output_text = if report.usable then a.text else none }
        ≡ o =
      uninterrupted a.is_interrupted _ o h in
    let (usable, text) =
      output_of_usable report.usable a.text t
        (ap (λ (x : AttemptOutcome). x.output_text) same ∙ out) in
    (usable, text, sym (ap (λ (x : AttemptOutcome). x.report) same))

some_receipt : (o : Option String) → is_none o ≡ false → (q : String) × (o ≡ some q)
some_receipt none h = cc
some_receipt (some q) h = (q, refl)

-- What an outcome with an output says of the judgement.
abbrev IsBacked : Dispatched → Assessment → AttemptOutcome → String → Type 0
IsBacked d a o t =
    (q : String) × (a.receipt ≡ some q)
    × (a.text ≡ some t)
    × (a.provider_status ≡ "success")
    × (o.report.receipt_sha256 ≡ some q)
    × ((x : Axis) → o.report.usage x ≤ d.component.maximums x)

module _ (frozen : Frozen) (digests : Digests) (d : Dispatched) (s : HostState) (o : AttemptOutcome)
    (t : String) (out : o.output_text ≡ some t) where
  settled-IsBacked :
      (a : Assessment) (charged : Amounts) (u : HostState)
      → IsAssessed s.receipts a
      → ((x : Axis) → charged x ≤ d.component.maximums x)
      → (conclude a
          (report_of frozen digests d a charged
            (str_eq a.provider_status "success" && is_none a.failure_code)
            a.failure_code)
          u).0
        ≡ ok o
      → IsBacked d a o t
  unfolding report_of
  settled-IsBacked a charged u assessed within h =
      let (usable, text, same) = conclude-output a _ u o t h out in
      let (success, fine, receipted) =
        success_receipted s.receipts a a.receipt assessed.backed usable in
      let (q, e) = some_receipt a.receipt receipted in
      (
        q,
        e,
        text,
        success,
        ap (λ (x : Report). x.receipt_sha256) same ∙ e,
        λ x. subst (λ (r : Report). r.usage x ≤ d.component.maximums x) (sym same) (within x),
      )

  -- A breach gives nothing out.
  breached-IsBacked :
      (a : Assessment) (charged : Amounts) (code : Option String) (u : HostState)
      → (conclude a (report_of frozen digests d a charged false code) u).0 ≡ ok o
      → IsBacked d a o t
  unfolding report_of
  breached-IsBacked a charged code u h = absurd (unusable (conclude-output a _ u o t h out).0)
    where
      unusable : ◌≡◌ {A = Bool} false true → ⊥
      unusable h = cc

  settle_attempt-IsBacked :
      (ds : List Dispatched) (a : Assessment) (observed : ℕ)
      → IsConsistent frozen (record { host = s; in_flight = ds })
      → find_flight (attempt_of d) ds ≡ some d
      → IsAssessed s.receipts a
      → observed ≤ max_budget_value
      → (settle_attempt frozen digests d a observed s).0 ≡ ok o
      → IsBacked d a o t
  unfolding settle_attempt after_settle settle_claimed is_breach
  settle_attempt-IsBacked ds a observed v found assessed h =
      let charged = final_charge d observed a.receipt a.charged in
      let answer =
        settle_attempt-settle_claimed frozen digests ds s v d found a observed assessed h in
      let P = λ (x : Result LedgerError Event × Ledger).
        (after_settle frozen digests d a charged
            (record s { receipts = add_receipt a.receipt s.receipts }) x).0
          ≡ ok o
        → IsBacked d a o t in
      subst P (sym answer) (
        if_induction P
          (is_over (
            settlement (attempt_of d) d.component.maximums charged a.provider_status a.receipt
              s.ledger))
          (λ over. breached-IsBacked a charged _ s)
          (λ under. settled-IsBacked a charged s assessed (λ x.
            settled_within (attempt_of d) a.provider_status d.component.maximums charged a.receipt
              s.ledger x under)))

-- What an attempt gives out, with the receipt `q` for it.
abbrev pub IsReleased :
    Digests
    → (Value → String → VerifierAnswer)
    → Dispatched
    → RunnerOutcome
    → Option ℕ
    → HostState
    → AttemptOutcome
    → String
    → Type 0
IsReleased digests verify d outcome elapsed s o t =
    (q : String) × (r : ProviderAttemptResult) × (c : Checked) × (outcome ≡ returned r)
    × (check_result d.request r ≡ ok c)
    × (c.text ≡ t)
    × (c.status ≡ "success")
    × (verify c.receipt_evidence (
          digests.context_sha256 d.request (digests.response_sha256 c.text) c.status
            (reported_usage c (observed_time d elapsed)))
        ≡ answered (Value.str q))
    × (contains q s.receipts ≡ false)
    × (o.report.receipt_sha256 ≡ some q)
    × ((x : Axis) → o.report.usage x ≤ d.component.maximums x)

-- In every execution: an attempt gives out a text only when its runner returned a valid result of
-- status success with that text, the verifier answered the context of exactly this result with a
-- receipt that no earlier attempt had, the report has this receipt, and no axis of its usage is
-- above what was reserved.
pub output_authorized :
    (frozen : Frozen) (digests : Digests) (ceilings : Amounts) (s : System)
    (verify : Value → String → VerifierAnswer) (id : String) (d : Dispatched)
    (outcome : RunnerOutcome) (elapsed : Option ℕ) (o : AttemptOutcome) (t : String)
    → IsPlanned frozen
    → Reach frozen digests (opening ceilings) s
    → find_flight id s.in_flight ≡ some d
    → (finish frozen digests verify d outcome elapsed s.host).0 ≡ ok o
    → o.output_text ≡ some t
    → IsReleased digests verify d outcome elapsed s.host o t
unfolding finish
output_authorized frozen digests ceilings s verify id d outcome elapsed o t planned path found ended
      out =
    let v = Reach-IsConsistent frozen digests ceilings s planned path in
    let (ready, named) = find_flight-All IsReady id s.in_flight d v.ready found in
    let observed = observed_time-le d elapsed ready.0 in
    let a = assess digests verify d (observed_time d elapsed) s.host.receipts outcome in
    let (q, receipt, text, success, reported, within) =
      settle_attempt-IsBacked frozen digests d s.host o t out s.in_flight a
        (observed_time d elapsed) v
        (subst (λ j. find_flight j s.in_flight ≡ some d) (sym named) found)
        (assess-IsAssessed digests verify d (observed_time d elapsed) s.host.receipts outcome
          observed)
        observed ended in
    let (r, c, came, checked, said, status, answer, new) =
      assess-IsReceipted digests verify d (observed_time d elapsed) s.host.receipts q outcome
        receipt in
    (
      q,
      r,
      c,
      came,
      checked,
      some_text (sym said ∙ text),
      sym status ∙ success,
      answer,
      new,
      reported,
      within,
    )

-- In every execution: however an attempt ends, exactly one report is added, it is on this attempt,
-- the ledger has spent exactly what it says on each axis, and without a receipt this is at least all
-- that was reserved.
pub finish-IsBooked :
    (frozen : Frozen) (digests : Digests) (ceilings : Amounts) (s : System)
    (verify : Value → String → VerifierAnswer) (id : String) (d : Dispatched)
    (outcome : RunnerOutcome) (elapsed : Option ℕ)
    → IsPlanned frozen
    → Reach frozen digests (opening ceilings) s
    → find_flight id s.in_flight ≡ some d
    → IsBooked s.host d (finish frozen digests verify d outcome elapsed s.host).1
unfolding finish
finish-IsBooked frozen digests ceilings s verify id d outcome elapsed planned path found =
    let v = Reach-IsConsistent frozen digests ceilings s planned path in
    let (ready, named) = find_flight-All IsReady id s.in_flight d v.ready found in
    let observed = observed_time-le d elapsed ready.0 in
    settle_attempt-IsBooked frozen digests s.in_flight s.host v d
      (subst (λ j. find_flight j s.in_flight ≡ some d) (sym named) found)
      (assess digests verify d (observed_time d elapsed) s.host.receipts outcome)
      (observed_time d elapsed)
      (assess-IsAssessed digests verify d (observed_time d elapsed) s.host.receipts outcome
        observed)
      observed
