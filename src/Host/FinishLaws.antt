-- ===== src/Host/FinishLaws.antt =====
-- `finish` keeps the invariant, and ends only by an outcome or an interrupt.
use mathlib.Core.Option
use prompt_performance_engin.Prelude.{
  ℕ, ◌+◌, ◌≤◌, ◌≡◌, refl, ap, sym, ◌∙◌, subst, true, false, String, str_eq, eq_iff, count,
  count_of_not_contains, Option, none, some, List, [], ◌∷◌, ◌++◌, arith, if_induction, ◌&&◌,
}
use prompt_performance_engin.Prelude.Value.{Value}
use prompt_performance_engin.Prelude.Result.{Result, ok, err}
use prompt_performance_engin.Budget.Amounts.{Error as LedgerError, max_budget_value}
use prompt_performance_engin.Budget.Ledger.{
  Ledger, Event, find, discard, settle_claimed, settlement, is_over, settle,
}
use prompt_performance_engin.Budget.Invariant.{IsSound, ids, count-discard}
use prompt_performance_engin.Budget.Soundness.{settle-IsSound, count-map-append}
use prompt_performance_engin.Budget.Behaviour.{is_breach}
use prompt_performance_engin.Host.Plan.{Frozen, HostState, Report, amounts_value, Slot}
use prompt_performance_engin.Host.Attempt.{
  Error, interrupted, Digests, Dispatched, RunnerOutcome, VerifierAnswer,
}
use prompt_performance_engin.Host.Finish.{
  AttemptOutcome, settle_attempt, after_settle, conclude, report_of, finish, add_receipt,
  receipt_value, is_none,
}
use prompt_performance_engin.Host.Steps.{System, attempt_of, find_flight, land}
use prompt_performance_engin.Host.Invariant.{
  IsReady, IsConsistent, IsAuthorized, reservation_of, find-map, discard-map, land-components,
  All-land, find_flight-All, All-append, receipts_of,
}
use prompt_performance_engin.Host.LedgerCalls.{settle-sized}
use prompt_performance_engin.Host.AssessLaws.{
  IsAssessed, Backed, assess-IsAssessed, observed_time-le, final_charge-IsSized,
}
use prompt_performance_engin.Host.Assess.{Assessment, assess, final_charge, observed_time}

-- An attempt that has been dispatched ends by its outcome, or by the interrupt that stopped it.
abbrev pub IsConcluded : Result Error AttemptOutcome → Type 0
IsConcluded (ok o) = Unit
IsConcluded (err interrupted) = Unit
IsConcluded (err e) = ⊥

pub count-add_receipt :
    (o : Option String) (xs : List String) (x : String)
    → count x (add_receipt o xs) ≡ count x xs + count x (add_receipt o [])
unfolding add_receipt
count-add_receipt none xs x = omega arith
count-add_receipt (some q) xs x = ground arith

pub count-receipts-append :
    (rs : List Report) (r : Report) (x : String)
    → count x (receipts_of (rs ++ r ∷ []))
      ≡ count x (receipts_of rs) + count x (add_receipt r.receipt_sha256 [])
unfolding add_receipt
count-receipts-append [] r x = omega arith
count-receipts-append (q ∷ rs) r x = omega (
  arith,
  count-add_receipt q.receipt_sha256 (receipts_of (rs ++ r ∷ [])) x,
  count-add_receipt q.receipt_sha256 (receipts_of rs) x,
  count-receipts-append rs r x,
)

-- A new receipt keeps the receipts apart.
pub unique-add_receipt :
    (receipts : List String) (a : Assessment) (o : Option String) (x : String)
    → Backed receipts a o
    → count x receipts ≤ 1
    → count x (add_receipt o receipts) ≤ 1
unfolding add_receipt
unique-add_receipt receipts a none x b h = h
unique-add_receipt receipts a (some q) x (new, sized) h =
    ground (arith, count_of_not_contains q receipts new, eq_iff q x)

none_of_is_none : (o : Option String) → is_none o ≡ true → o ≡ none
none_of_is_none none h = refl
none_of_is_none (some a) h = cc

-- A judgement without a failure has a receipt.
pub success_receipted :
    (receipts : List String) (a : Assessment) (o : Option String)
    → Backed receipts a o
    → (str_eq a.provider_status "success" && is_none a.failure_code) ≡ true
    → (a.provider_status ≡ "success") × (a.failure_code ≡ none) × (is_none o ≡ false)
success_receipted receipts a none b h = ground (arith, b, h)
success_receipted receipts a (some q) b h = (
  ground (arith, h, eq_iff a.provider_status "success"),
  none_of_is_none a.failure_code (ground (arith, h)),
  refl,
)

module _ (frozen : Frozen) (digests : Digests) where
  abbrev Landed : String → List Dispatched → Result Error AttemptOutcome × HostState → Type 0
  Landed id ds o =
      IsConsistent frozen (record { host = o.1; in_flight = land id ds }) × IsConcluded o.0

  module _ (ds : List Dispatched) (s : HostState)
      (v : IsConsistent frozen (record { host = s; in_flight = ds })) (d : Dispatched)
      (found : find_flight (attempt_of d) ds ≡ some d) where
    held : find (attempt_of d) s.ledger.reservations ≡ some (reservation_of d)
    held =
        ap (find (attempt_of d)) v.mirror
        ∙ find-map (attempt_of d) ds
        ∙ ap (Option.map reservation_of) found

    -- The state when the report is recorded.
    recorded-IsConsistent :
        (a : Assessment) (r : Report) (l : Ledger)
        → IsAssessed s.receipts a
        → IsSound l
        → l.reservations ≡ discard (attempt_of d) s.ledger.reservations
        → r.attempt_id ≡ attempt_of d
        → r.slot ≡ d.request.slot
        → r.receipt_sha256 ≡ a.receipt
        → IsAuthorized r
        → IsConsistent frozen (record {
          host = record s {
            ledger = l;
            receipts = add_receipt a.receipt s.receipts;
            reports = s.reports ++ r ∷ [];
          };
          in_flight = land (attempt_of d) ds;
        })
    recorded-IsConsistent a r l assessed sound gone named slotted receipt authorized = record {
      sound = sound;
      mirror = gone ∙ ap (discard (attempt_of d)) v.mirror ∙ discard-map (attempt_of d) ds;
      places = λ id. omega (
        arith,
        v.places id,
        ap (λ rs. count id (ids rs)) gone,
        count-discard (attempt_of d) id s.ledger.reservations (reservation_of d) held,
        count-map-append (λ (r : Report). r.attempt_id) s.reports r id,
        ap (λ n. count id (n ∷ [])) named,
      );
      once = v.once;
      allocated = λ id. omega (
        arith,
        v.allocated id,
        land-components (attempt_of d) ds d id found,
        count-map-append (λ (r : Report). r.slot.component_id) s.reports r id,
        ap (λ (x : Slot). count id (x.component_id ∷ [])) slotted,
      );
      capacity = v.capacity;
      receipts = λ x. omega (
        arith,
        v.receipts x,
        count-add_receipt a.receipt s.receipts x,
        count-receipts-append s.reports r x,
        ap (λ o. count x (add_receipt o [])) receipt,
      );
      unique = λ x. unique-add_receipt s.receipts a a.receipt x assessed.backed (v.unique x);
      ready = All-land IsReady (attempt_of d) ds v.ready;
      authorized = All-append IsAuthorized s.reports r v.authorized authorized;
    }

    concluded-Landed :
        (a : Assessment) (r : Report) (l : Ledger)
        → IsAssessed s.receipts a
        → IsSound l
        → l.reservations ≡ discard (attempt_of d) s.ledger.reservations
        → r.attempt_id ≡ attempt_of d
        → r.slot ≡ d.request.slot
        → r.receipt_sha256 ≡ a.receipt
        → IsAuthorized r
        → Landed
            (attempt_of d)
            ds
            (conclude a r (record s { ledger = l; receipts = add_receipt a.receipt s.receipts }))
    unfolding conclude
    concluded-Landed a r l assessed sound gone named slotted receipt authorized = (
      recorded-IsConsistent a r l assessed sound gone named slotted receipt authorized,
      if_induction IsConcluded a.is_interrupted (λ e. tt) (λ e. tt),
    )

    -- The ledger takes the arguments of the settlement.
    pub settle_attempt-settle_claimed :
        (a : Assessment) (observed : ℕ)
        → IsAssessed s.receipts a
        → observed ≤ max_budget_value
        → let charged = final_charge d observed a.receipt a.charged in
          settle
            (attempt_of d)
            (amounts_value charged)
            a.provider_status
            (receipt_value a.receipt)
            (Value.str d.reservation_token)
            s.ledger
          ≡ settle_claimed
              (attempt_of d)
              d.component.maximums
              charged
              a.provider_status
              a.receipt
              s.ledger
    settle_attempt-settle_claimed a observed assessed h =
        let charged = final_charge d observed a.receipt a.charged in
        let ready = find_flight-All IsReady (attempt_of d) ds d v.ready found in
        let sized =
          final_charge-IsSized d observed s.receipts a a.receipt ready.0.0 h assessed.backed in
        settle-sized (attempt_of d) charged a.provider_status a.receipt s.ledger (reservation_of d)
          sized assessed.known assessed.digest held ready.0.1

    settle_attempt-Landed :
        (a : Assessment) (observed : ℕ)
        → IsAssessed s.receipts a
        → observed ≤ max_budget_value
        → Landed (attempt_of d) ds (settle_attempt frozen digests d a observed s)
    unfolding settle_attempt after_settle report_of settle_claimed is_breach
    settle_attempt-Landed a observed assessed h =
        let charged = final_charge d observed a.receipt a.charged in
        let answer = settle_attempt-settle_claimed a observed assessed h in
        let P = λ (o : Result LedgerError Event × Ledger).
          IsSound o.1
          → Landed (attempt_of d) ds (
              after_settle frozen digests d a charged
                (record s { receipts = add_receipt a.receipt s.receipts }) o) in
        let fine = success_receipted s.receipts a a.receipt assessed.backed in
        subst P (sym answer)
          (if_induction P
            (is_over (
              settlement (attempt_of d) d.component.maximums charged a.provider_status a.receipt
                s.ledger))
            (λ over k. concluded-Landed a _ _ assessed k refl refl refl refl (λ e. cc))
            (λ under k. concluded-Landed a _ _ assessed k refl refl refl refl fine))
          (settle-IsSound (attempt_of d) (amounts_value charged) a.provider_status
            (receipt_value a.receipt) (Value.str d.reservation_token) s.ledger v.sound)

  -- `finish` keeps the invariant, whatever the runner and the verifier did, and raises nothing of its own.
  pub finish-IsConsistent :
      (verify : Value → String → VerifierAnswer) (id : String) (d : Dispatched)
      (outcome : RunnerOutcome) (elapsed : Option ℕ) (s : System)
      → IsConsistent frozen s
      → find_flight id s.in_flight ≡ some d
      → IsConsistent frozen (record {
        host = (finish frozen digests verify d outcome elapsed s.host).1;
        in_flight = land id s.in_flight;
      })
        × IsConcluded (finish frozen digests verify d outcome elapsed s.host).0
  unfolding finish
  finish-IsConsistent verify id d outcome elapsed s v found =
      let (ready, named) = find_flight-All IsReady id s.in_flight d v.ready found in
      let observed = observed_time-le d elapsed ready.0 in
      subst (λ j. Landed j s.in_flight (finish frozen digests verify d outcome elapsed s.host))
        named
        (settle_attempt-Landed s.in_flight s.host v d
          (subst (λ j. find_flight j s.in_flight ≡ some d) (sym named) found)
          (assess digests verify d (observed_time d elapsed) s.host.receipts outcome)
          (observed_time d elapsed)
          (assess-IsAssessed digests verify d (observed_time d elapsed) s.host.receipts outcome
            observed)
          observed)
