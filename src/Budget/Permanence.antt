-- ===== src/Budget/Permanence.antt =====
-- What no later call can undo: a breach, and the end of a reservation.
use prompt_performance_engin.Prelude.{
  ◌≡◌, ◌≤◌, refl, arith, true, ◌∙◌, List, String, contains, count-append, Option, count,
  if_induction, ◌∷◌, [], is_empty, ◌≢◌, ◌+◌, ◌++◌, ◌||◌, none,
}
use prompt_performance_engin.Budget.Ledger.{
  Ledger, add_id, claim, release, reserve, reserve_locked, settle_claimed, cancel_before_call,
  charge, settle, Reservation, settlement, discard, exceeded_by, reserve_arguments, is_over,
  settle_arguments, Event, find,
}
use prompt_performance_engin.Budget.Calls.{after, run, Call, reserving, cancelling, settling}
use prompt_performance_engin.Prelude.Result.{Result, attempt_induction, ok, err}
use prompt_performance_engin.Budget.Amounts.{Error, Amounts, Axis, not_active}
use prompt_performance_engin.Prelude.Value.{Value}
use prompt_performance_engin.Budget.Invariant.{IsSound, settled_ids, find_of_count}
use prompt_performance_engin.Budget.Soundness.{run-IsSound, count-map-append}

-- What every call keeps or only adds to.
pub record Extends (l m : Ledger) : Type 0 where
  pub same_ceilings : m.ceilings ≡ l.ceilings
  pub stays_breached : l.breached ≡ true → m.breached ≡ true
  pub stays_used : (id : String) → contains id l.used_ids ≡ true → contains id m.used_ids ≡ true
  pub stays_settled : (id : String) → count id (settled_ids l) ≤ count id (settled_ids m)
  pub stays_cancelled :
      (id : String) → count id l.pre_call_cancellations ≤ count id m.pre_call_cancellations
  pub spends : (a : Axis) → l.consumed a ≤ m.consumed a

Extends-refl : (l : Ledger) → Extends l l
Extends-refl l = record {
  same_ceilings = refl;
  stays_breached = λ h. h;
  stays_used = λ id h. h;
  stays_settled = λ id. omega arith;
  stays_cancelled = λ id. omega arith;
  spends = λ a. omega arith;
}

Extends-trans : (k l m : Ledger) → Extends k l → Extends l m → Extends k m
Extends-trans k l m p q = record {
  same_ceilings = q.same_ceilings ∙ p.same_ceilings;
  stays_breached = λ h. q.stays_breached (p.stays_breached h);
  stays_used = λ id h. q.stays_used id (p.stays_used id h);
  stays_settled = λ id. omega (arith, p.stays_settled id, q.stays_settled id);
  stays_cancelled = λ id. omega (arith, p.stays_cancelled id, q.stays_cancelled id);
  spends = λ a. omega (arith, p.spends a, q.spends a);
}

abbrev LeavesExtended : {A : Type 0} → Ledger → Result Error A × Ledger → Type 0
LeavesExtended l o = Extends l o.1

contains-add_id :
    (id j : String) (used : List String)
    → contains j used ≡ true
    → contains j (add_id id used) ≡ true
unfolding add_id
contains-add_id id j used h = ground arith

reserve_locked-Extends :
    (id : String) (reserved : Amounts) (token : String) (l : Ledger)
    → Extends l (reserve_locked id reserved token l).1
unfolding reserve_locked
reserve_locked-Extends id reserved token l =
    if_induction (LeavesExtended l) (contains id l.used_ids) (λ used. Extends-refl l)
      λ fresh.
        if_induction (LeavesExtended l) l.breached (λ over. Extends-refl l)
          λ sound.
            if_induction (LeavesExtended l) (is_empty (exceeded_by reserved l))
              (λ fits. record {
                same_ceilings = refl;
                stays_breached = λ h. h;
                stays_used = λ j. contains-add_id id j l.used_ids;
                stays_settled = λ j. omega arith;
                stays_cancelled = λ j. omega arith;
                spends = λ a. omega arith;
              })
              (λ exceeds. record {
                same_ceilings = refl;
                stays_breached = λ h. refl;
                stays_used = λ j. contains-add_id id j l.used_ids;
                stays_settled = λ j. omega arith;
                stays_cancelled = λ j. omega arith;
                spends = λ a. omega arith;
              })

release-Extends : (id : String) (l : Ledger) → Extends l (release id l).1
unfolding release
release-Extends id l = record {
  same_ceilings = refl;
  stays_breached = λ h. h;
  stays_used = λ j h. h;
  stays_settled = λ j. omega arith;
  stays_cancelled = λ j. omega (arith, count-append j l.pre_call_cancellations (id ∷ []));
  spends = λ a. omega arith;
}

settle_claimed-Extends :
    (id : String) (reserved charged : Amounts) (status : String) (receipt : Option String)
    (l : Ledger)
    → Extends l (settle_claimed id reserved charged status receipt l).1
unfolding settle_claimed charge
settle_claimed-Extends id reserved charged status receipt l =
    let event = settlement id reserved charged status receipt l in
    let booked : Extends l (record l {
      reservations = discard id l.reservations;
      consumed = λ a. l.consumed a + charged a;
      events = l.events ++ event ∷ [];
      breached = l.breached || is_over event;
    }) =
      record {
        same_ceilings = refl;
        stays_breached = λ h. ground arith;
        stays_used = λ j h. h;
        stays_settled =
            λ j. omega (arith, count-map-append (λ (e : Event). e.reservation_id) l.events event j);
        stays_cancelled = λ j. omega arith;
        spends = λ a. omega arith;
      } in
    if_induction (LeavesExtended l) (is_over event) (λ over. booked) (λ fine. booked)

after-Extends : (c : Call) (l : Ledger) → Extends l (after c l)
unfolding after reserve cancel_before_call settle
after-Extends (reserving id maximums token) l =
    attempt_induction (LeavesExtended l) (reserve_arguments id maximums) _ l (λ e _. Extends-refl l)
      λ arguments _. reserve_locked-Extends arguments.0 arguments.1 token l
after-Extends (cancelling id token) l =
    attempt_induction (LeavesExtended l) (claim id token l) _ l (λ e _. Extends-refl l)
      (λ r _. release-Extends id l)
after-Extends (settling id actuals status receipt token) l =
    attempt_induction (LeavesExtended l) (settle_arguments actuals status receipt) _ l
      (λ e _. Extends-refl l)
      λ arguments _.
        attempt_induction (LeavesExtended l) (claim id token l) _ l (λ e _. Extends-refl l)
          (λ r _. settle_claimed-Extends id r.reserved arguments.0 status arguments.1 l)

pub run-Extends : (cs : List Call) (l : Ledger) → Extends l (run cs l)
unfolding run
run-Extends [] l = Extends-refl l
run-Extends (c ∷ rest) l =
    Extends-trans l (after c l) (run rest (after c l)) (after-Extends c l)
      (run-Extends rest (after c l))

-- Once an id is settled or cancelled in a sound ledger, then after any further calls it is not
-- active, so a second `settle` or `cancel_before_call` under any token raises "not active".
pub ended_stays_ended :
    (id : String) (token : Value) (cs : List Call) (l : Ledger)
    → IsSound l
    → 1 ≤ count id (settled_ids l) + count id l.pre_call_cancellations
    → claim id token (run cs l) ≡ err not_active
unfolding claim
ended_stays_ended id token cs l v ended =
    let m = run cs l in
    let e = run-Extends cs l in
    let w = run-IsSound cs l v in
    let gone : find id m.reservations ≡ none =
      find_of_count id m.reservations
        (omega (arith, w.places id, w.once id, e.stays_settled id, e.stays_cancelled id)) in
    rw (gone, claim)

reserve_locked_breached :
    (name : String) (reserved : Amounts) (token : String) (l : Ledger) (r : Reservation)
    → l.breached ≡ true
    → (reserve_locked name reserved token l).0 ≢ ok r
unfolding reserve_locked
reserve_locked_breached name reserved token l r h e = ground arith

-- After a breach, whatever is called, no reservation is accepted any more.
pub breach_is_final :
    (cs : List Call) (id maximums : Value) (token : String) (l : Ledger) (r : Reservation)
    → l.breached ≡ true
    → (reserve id maximums token (run cs l)).0 ≢ ok r
unfolding reserve
breach_is_final cs id maximums token l r h =
    let m = run cs l in
    attempt_induction (λ (o : Result Error Reservation × Ledger). o.0 ≢ ok r)
      (reserve_arguments id maximums) _ m (λ e _ p. cc)
      λ arguments _.
        reserve_locked_breached arguments.0 arguments.1 token m r
          ((run-Extends cs l).stays_breached h)
