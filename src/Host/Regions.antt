-- ===== src/Host/Regions.antt =====
-- The lock regions of `execute_attempt` of src/prompt_performance_engine/frontier_host.py, each a step
-- of its own: `_claim_slot`, the ledger's `reserve`, `_release_slot`, the test of a receipt, the
-- ledger's `settle` and `_record`. Between any two of them other threads may run theirs.
use prompt_performance_engin.Prelude.{
  ℕ, Bool, String, str_eq, ◌&&◌, Option, some, List, [], ◌∷◌, ◌++◌, ◌≡◌, if◌then◌else◌, false,
}
use prompt_performance_engin.Prelude.Value.{Value}
use prompt_performance_engin.Prelude.Result.{Result, ok, err}
use prompt_performance_engin.Budget.Amounts.{Amounts, Error as LedgerError}
use prompt_performance_engin.Budget.Ledger.{Ledger, Event, Reservation, reserve, settle}
use prompt_performance_engin.Budget.Behaviour.{is_breach}
use prompt_performance_engin.Host.Plan.{
  Frozen, Component, Report, HostState, fresh_host, amounts_value,
}
use prompt_performance_engin.Host.Attempt.{
  Arguments, Digests, Dispatched, Request, RunnerOutcome, VerifierAnswer, prepare, claim_slot,
  release_slot,
}
use prompt_performance_engin.Host.Assess.{Assessment, assess, final_charge, observed_time}
use prompt_performance_engin.Host.Finish.{add_receipt, is_none, receipt_value, report_of}

-- How far a thread is, between two regions. A thread that `settle` stopped by an error other than a
-- breach stays as `abandoned`, for its slot stays used.
pub data Phase : Type 0 where
  claimed : Request → Component → Phase
  refused : Request → Phase
  running : Dispatched → Phase
  receipted : Dispatched → Assessment → ℕ → Phase
  settled : Report → Phase
  abandoned : Dispatched → Assessment → Phase

-- What the world gives to a thread for its next region.
pub record Answers : Type 0 where
  pub token : String
  pub verify : Value → String → VerifierAnswer
  pub outcome : RunnerOutcome
  pub elapsed : Option ℕ

-- `self._ledger.reserve(attempt_id, maximums)`
unfoldable pub reserved :
    Request
    → Component
    → HostState
    → Result LedgerError Reservation × Ledger
    → List Phase × HostState
reserved request c s (ok r, l) = (
  running (record { component = c; reservation_token = r.reservation_token; request = request })
      ∷ [],
  record s { ledger = l },
)
reserved request c s (err e, l) = (refused request ∷ [], record s { ledger = l })

-- `self._ledger.settle(attempt_id, charged, …)`, and the report that is built after it.
unfoldable pub settling :
    Frozen
    → Digests
    → Dispatched
    → Assessment
    → Amounts
    → HostState
    → Result LedgerError Event × Ledger
    → List Phase × HostState
settling frozen digests d a charged s (ok event, l) = (
  settled (
        report_of frozen digests d a charged
          (str_eq a.provider_status "success" && is_none a.failure_code) a.failure_code)
      ∷ [],
  record s { ledger = l },
)
settling frozen digests d a charged s (err e, l) =
    if is_breach e
    then (
      settled (report_of frozen digests d a charged false (some "budget_breach")) ∷ [],
      record s { ledger = l },
    )
    else (abandoned d a ∷ [], record s { ledger = l })

-- The next region of a thread: where the thread is after it, unless it has left, and the host.
unfoldable pub advance : Frozen → Digests → Answers → Phase → HostState → List Phase × HostState
unfolding release_slot add_receipt
advance frozen digests w (claimed request c) s =
    reserved request c s
      (reserve (Value.str request.slot.slot_id) (amounts_value c.maximums) w.token s.ledger)
advance frozen digests w (refused request) s = ([], release_slot request.slot s)
advance frozen digests w (running d) s =
    let observed = observed_time d w.elapsed in
    let a = assess digests w.verify d observed s.receipts w.outcome in
    (receipted d a observed ∷ [], record s { receipts = add_receipt a.receipt s.receipts })
advance frozen digests w (receipted d a observed) s =
    let charged = final_charge d observed a.receipt a.charged in
    settling frozen digests d a charged s (
      settle d.request.slot.slot_id (amounts_value charged) a.provider_status
        (receipt_value a.receipt) (Value.str d.reservation_token) s.ledger)
advance frozen digests w (settled r) s = ([], record s { reports = s.reports ++ r ∷ [] })
advance frozen digests w (abandoned d a) s = (abandoned d a ∷ [], s)

pub record Shared : Type 0 where
  pub host : HostState
  pub threads : List Phase

-- One region of one thread: a claim that was accepted, or the next region of a thread that has
-- claimed its slot. A claim that is refused changes nothing.
pub data Region (frozen : Frozen) (digests : Digests) (s t : Shared) : Type 0 where
  claiming :
      (is_expired clock_works : Bool) (a : Arguments) (request : Request) (c : Component)
      (h : HostState)
      → prepare frozen digests is_expired clock_works a ≡ ok request
      → claim_slot frozen request.slot s.host ≡ (ok c, h)
      → t ≡ record { host = h; threads = claimed request c ∷ s.threads }
      → Region frozen digests s t
  advancing :
      (before after : List Phase) (p : Phase) (w : Answers)
      → s.threads ≡ before ++ p ∷ after
      → t ≡ record {
        host = (advance frozen digests w p s.host).1;
        threads = before ++ ((advance frozen digests w p s.host).0 ++ after);
      }
      → Region frozen digests s t

pub data Regions (frozen : Frozen) (digests : Digests) (s : Shared) : Shared → Type 0 where
  none_yet : Regions frozen digests s s
  then_region :
      {t u : Shared}
      → Regions frozen digests s t
      → Region frozen digests t u
      → Regions frozen digests s u

-- A host that was just made, before any thread.
abbrev pub unused : Amounts → Shared
unused ceilings = record { host = fresh_host ceilings; threads = [] }
