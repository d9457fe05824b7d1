-- ===== src/Host/RegionInvariant.antt =====
-- Whatever the order of the lock regions of its threads, a `FrontierExecutionHost` stays orderly.
use prompt_performance_engin.Prelude.{
  ◌≡◌, refl, ap, sym, ◌∙◌, subst, false, eq_iff, contains, count_of_not_contains, some, List, [],
  ◌∷◌, arith, if_induction, Option-cases, leb, inl, inr, if◌then◌else◌, ℕ,
}
use prompt_performance_engin.Prelude.Value.{Value}
use prompt_performance_engin.Prelude.Result.{Result, ok, err}
use prompt_performance_engin.Budget.Amounts.{Amounts, Error as LedgerError}
use prompt_performance_engin.Budget.Ledger.{Ledger, Event, Reservation, initial}
use prompt_performance_engin.Budget.Behaviour.{is_breach}
use prompt_performance_engin.Budget.Invariant.{IsSound}
use prompt_performance_engin.Budget.Soundness.{reserve-IsSound, settle-IsSound, initial-IsSound}
use prompt_performance_engin.Host.Plan.{
  Frozen, Component, HostState, Slot, find_component, amounts_value, fresh_host,
}
use prompt_performance_engin.Host.Attempt.{
  Error, Digests, Dispatched, Request, claim_slot, slot_consumed, unknown_component,
  capacity_exhausted,
}
use prompt_performance_engin.Host.Assess.{Assessment, final_charge, observed_time}
use prompt_performance_engin.Host.Finish.{receipt_value, report_of, add_receipt}
use prompt_performance_engin.Host.Invariant.{IsSized, IsPlanned}
use prompt_performance_engin.Host.BeginLaws.{taken, find_component-All}
use prompt_performance_engin.Host.AssessLaws.{assess-IsAssessed, observed_time-le}
use prompt_performance_engin.Host.Regions.{
  Phase, claimed, refused, running, receipted, settled, abandoned, Answers, reserved, settling,
  advance, Shared, Region, Regions, claiming, advancing, none_yet, then_region, unused,
}
use prompt_performance_engin.Host.Orderly.{IsOrderly, Holds}
use prompt_performance_engin.Host.RegionLaws.{
  With, All-replace, ledger_step, release_step, receipt_step, report_step,
}

module _ (frozen : Frozen) (digests : Digests) (before after : List Phase) where
  abbrev Orderly : List Phase × HostState → Type 0
  Orderly o = With frozen before after o.0 o.1

  reserved-IsOrderly :
      (s : HostState) (request : Request) (c : Component)
      (o : Result LedgerError Reservation × Ledger)
      → With frozen before after (claimed request c ∷ []) s
      → IsSound o.1
      → Orderly (reserved request c s o)
  unfolding reserved
  reserved-IsOrderly s request c (ok r, l) v sound =
      let sized = (All-replace Holds before (claimed request c) after v.holds).0 in
      ledger_step frozen before after s (claimed request c) v _ l sound refl refl refl sized
  reserved-IsOrderly s request c (err e, l) v sound =
      ledger_step frozen before after s (claimed request c) v _ l sound refl refl refl tt

  settling-IsOrderly :
      (s : HostState) (d : Dispatched) (a : Assessment) (observed : ℕ) (charged : Amounts)
      (o : Result LedgerError Event × Ledger)
      → With frozen before after (receipted d a observed ∷ []) s
      → IsSound o.1
      → Orderly (settling frozen digests d a charged s o)
  unfolding settling report_of
  settling-IsOrderly s d a observed charged (ok event, l) v sound =
      let confirmed = (All-replace Holds before (receipted d a observed) after v.holds).0 in
      ledger_step frozen before after s (receipted d a observed) v _ l sound refl refl refl
        confirmed
  settling-IsOrderly s d a observed charged (err e, l) v sound =
      let step = ledger_step frozen before after s (receipted d a observed) v in
      if_induction Orderly (is_breach e) (λ breach. step _ l sound refl refl refl (λ k. cc))
        (λ other. step (abandoned d a) l sound refl refl refl tt)

  advance-IsOrderly :
      (w : Answers) (p : Phase) (s : HostState)
      → With frozen before after (p ∷ []) s
      → Orderly (advance frozen digests w p s)
  unfolding advance
  advance-IsOrderly w (claimed request c) s v = reserved-IsOrderly s request c _ v (
      reserve-IsSound (Value.str request.slot.slot_id) (amounts_value c.maximums) w.token s.ledger
        v.sound)
  advance-IsOrderly w (refused request) s v = release_step frozen before after s request v
  advance-IsOrderly w (running d) s v =
      let sized = (All-replace Holds before (running d) after v.holds).0 in
      receipt_step frozen before after s d _ (observed_time d w.elapsed)
        (assess-IsAssessed digests w.verify d (observed_time d w.elapsed) s.receipts w.outcome
          (observed_time-le d w.elapsed sized))
        v
  advance-IsOrderly w (receipted d a observed) s v =
      let charged = final_charge d observed a.receipt a.charged in
      settling-IsOrderly s d a observed charged _ v (
        settle-IsSound d.request.slot.slot_id (amounts_value charged) a.provider_status
          (receipt_value a.receipt) (Value.str d.reservation_token) s.ledger v.sound)
  advance-IsOrderly w (settled r) s v = report_step frozen before after s r v
  advance-IsOrderly w (abandoned d a) s v = v

-- What a claim that was accepted found, and what it left.
abbrev Claimed : Frozen → Slot → HostState → Component → HostState → Type 0
Claimed frozen slot s c h =
    (find_component slot.component_id frozen.components ≡ some c)
    × (contains slot.slot_id s.used_slots ≡ false)
    × (leb c.capacity (s.allocated slot.component_id) ≡ false)
    × (h ≡ taken slot s)

claimed_eq :
    {c e : Component} {h k : HostState}
    → ◌≡◌ {A = Result Error Component × HostState} (ok c, h) (ok e, k)
    → (c ≡ e) × (h ≡ k)
claimed_eq h = (cc, cc)

claim_slot-Claimed :
    (frozen : Frozen) (slot : Slot) (s h : HostState) (c : Component)
    → claim_slot frozen slot s ≡ (ok c, h)
    → Claimed frozen slot s c h
unfolding claim_slot
claim_slot-Claimed frozen slot s h c =
    let P = λ (o : Result Error Component × HostState). o ≡ (ok c, h) → Claimed frozen slot s c h in
    elim (Option-cases (find_component slot.component_id frozen.components)) [
      | inl e ↦
          let made : claim_slot frozen slot s ≡ (
              if contains slot.slot_id s.used_slots
              then (err slot_consumed, s)
              else (err unknown_component, s)) =
            rw (e, claim_slot) refl in
          subst P (sym made)
            (if_induction P (contains slot.slot_id s.used_slots) (λ used k. cc) (λ free k. cc))
      | inr (e, found) ↦
          let made : claim_slot frozen slot s ≡ (
              if contains slot.slot_id s.used_slots
              then (err slot_consumed, s)
              else if leb e.capacity (s.allocated slot.component_id)
              then (err capacity_exhausted, s)
              else (ok e, taken slot s)) =
            rw (found, claim_slot) refl in
          subst P (sym made) (
            if_induction P (contains slot.slot_id s.used_slots) (λ used k. cc)
              (λ free.
                if_induction P (leb e.capacity (s.allocated slot.component_id)) (λ full k. cc)
                  (λ room k.
                    let (same, left) = claimed_eq k in
                    (
                      found ∙ ap some same,
                      free,
                      subst (λ x. leb x.capacity (s.allocated slot.component_id) ≡ false) same room,
                      sym left,
                    ))))
    ]

claimed-IsOrderly :
    (frozen : Frozen) (s : Shared) (request : Request) (c : Component)
    → IsPlanned frozen
    → IsOrderly frozen s
    → find_component request.slot.component_id frozen.components ≡ some c
    → contains request.slot.slot_id s.host.used_slots ≡ false
    → leb c.capacity (s.host.allocated request.slot.component_id) ≡ false
    → IsOrderly frozen
        (record { host = taken request.slot s.host; threads = claimed request c ∷ s.threads })
unfolding add_receipt
claimed-IsOrderly frozen s request c planned v found free room = record {
  sound = v.sound;
  places = λ id. ground (arith, v.places id);
  once = λ id. ground (
    arith,
    v.once id,
    count_of_not_contains request.slot.slot_id s.host.used_slots free,
    eq_iff request.slot.slot_id id,
  );
  allocated = λ id. ground (arith, v.allocated id);
  capacity =
      λ id k h. ground (arith, v.capacity id k h, found, room, eq_iff request.slot.component_id id);
  receipts = λ r. omega (arith, v.receipts r);
  unique = v.unique;
  holds = (
    find_component-All (λ k. IsSized k.maximums) request.slot.component_id frozen.components c
        planned found,
    v.holds,
  );
  authorized = v.authorized;
}

Region-IsOrderly :
    (frozen : Frozen) (digests : Digests) (s t : Shared)
    → IsPlanned frozen
    → Region frozen digests s t
    → IsOrderly frozen s
    → IsOrderly frozen t
Region-IsOrderly frozen digests s t planned (claiming x w a request c h prepared accepted e) v =
    let (found, free, room, left) = claim_slot-Claimed frozen request.slot s.host h c accepted in
    subst (IsOrderly frozen) (sym e) (
      subst (λ k. IsOrderly frozen (record { host = k; threads = claimed request c ∷ s.threads }))
        (sym left) (claimed-IsOrderly frozen s request c planned v found free room))
Region-IsOrderly frozen digests s t planned (advancing before after p w there e) v =
    subst (IsOrderly frozen) (sym e) (
      advance-IsOrderly frozen digests before after w p s.host
        (subst (λ ps. IsOrderly frozen (record { host = s.host; threads = ps })) there v))

unused-IsOrderly : (frozen : Frozen) (ceilings : Amounts) → IsOrderly frozen (unused ceilings)
unfolding fresh_host initial
unused-IsOrderly frozen ceilings = record {
  sound = initial-IsSound ceilings;
  places = λ id. refl;
  once = λ id. omega arith;
  allocated = λ id. refl;
  capacity = λ id c h. omega arith;
  receipts = λ r. refl;
  unique = λ r. omega arith;
  holds = tt;
  authorized = tt;
}

-- However the lock regions of any number of threads interleave on a host with a fresh ledger, and
-- whatever runners and verifiers do, between any two regions the ledger is sound; each used slot has
-- exactly one attempt, with a thread or reported; each component has as many attempts as are with
-- threads or reported, and no more than its capacity; the receipts are those of threads and reports,
-- and no two have the same; and a report releases output only after a success with a receipt.
pub Regions-IsOrderly :
    (frozen : Frozen) (digests : Digests) (ceilings : Amounts) (s : Shared)
    → IsPlanned frozen
    → Regions frozen digests (unused ceilings) s
    → IsOrderly frozen s
Regions-IsOrderly frozen digests ceilings s planned none_yet = unused-IsOrderly frozen ceilings
Regions-IsOrderly frozen digests ceilings s planned (then_region {t = t} path last_) =
    Region-IsOrderly frozen digests t s planned last_
      (Regions-IsOrderly frozen digests ceilings t planned path)
