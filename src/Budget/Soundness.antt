-- ===== src/Budget/Soundness.antt =====
-- Each method keeps the invariant, whether it returns or raises; so does every sequence of calls.
use prompt_performance_engin.Prelude.{
  ◌+◌, ◌≤◌, ◌≡◌, refl, true, false, List, [], ◌∷◌, ◌++◌, String, map, is_empty, contains, count,
  count_of_not_contains, eq_iff, arith, if_induction, Option, some, count-append, ◌||◌, ◌==◌, subst,
}
use prompt_performance_engin.Prelude.Result.{
  ok, Result, attempt_induction, returned_by, raise_if, ◌>>◌, ◌>>◌,
}
use prompt_performance_engin.Prelude.Value.{Value}
use prompt_performance_engin.Budget.Amounts.{
  Axis, Amounts, sum_amounts, Error, amounts, calls, zero_call_ceiling,
}
use prompt_performance_engin.Budget.Ledger.{
  Reservation, Event, Rejection, Ledger, put, active, add_id, exceeded_by, reserve, reserve_locked,
  reserve_arguments, cancel_before_call, claim, is_over, release, settle_claimed, charge,
  check_token, find, settlement, create, discard, settle, settle_arguments, initial,
}
use prompt_performance_engin.Budget.Invariant.{
  IsSound, axes_over-empty, find_of_count, put_new, active-append, active-discard, count-discard,
  any-append_one,
}
use prompt_performance_engin.Budget.Calls.{after, run, Call, reserving, cancelling, settling}

-- One more entry is one more mention of its id.
pub count-map-append {ℓ} :
    {A : Type ℓ} (key : A → String) (xs : List A) (x : A) (j : String)
    → count j (map key (xs ++ x ∷ [])) ≡ count j (map key xs) + count j (key x ∷ [])
count-map-append key [] x j = omega arith
count-map-append key (y ∷ xs) x j = ground (arith, count-map-append key xs x j)

count-add_id :
    (id j : String) (used : List String)
    → contains id used ≡ false
    → count j (add_id id used) ≡ count j used + count j (id ∷ [])
unfolding add_id
count-add_id id j used fresh = ground arith

-- An id that is fresh can be used once.
once-add_id :
    (id j : String) (used : List String)
    → contains id used ≡ false
    → count j used ≤ 1
    → count j (add_id id used) ≤ 1
once-add_id id j used fresh h =
    ground (arith, count-add_id id j used fresh, count_of_not_contains id used fresh, eq_iff id j)

charges-append :
    (events : List Event) (e : Event) (a : Axis)
    → sum_amounts (map (λ (f : Event). f.charged) (events ++ e ∷ [])) a
      ≡ sum_amounts (map (λ (f : Event). f.charged) events) a + e.charged a
unfolding sum_amounts
charges-append [] e a = omega arith
charges-append (f ∷ events) e a = omega (arith, charges-append events e a)

-- A reservation that fits is added without a breach.
reserve_fits-IsSound :
    (id : String) (reserved : Amounts) (token : String) (l : Ledger)
    → IsSound l
    → contains id l.used_ids ≡ false
    → is_empty (exceeded_by reserved l) ≡ true
    → IsSound (record l {
      used_ids = add_id id l.used_ids;
      reservations =
          put
            (record { reservation_id = id; reserved = reserved; reservation_token = token })
            l.reservations;
    })
unfolding exceeded_by
reserve_fits-IsSound id reserved token l v fresh fits =
    let r : Reservation = record {
      reservation_id = id;
      reserved = reserved;
      reservation_token = token;
    } in
    let unused : count id l.used_ids ≡ 0 = count_of_not_contains id l.used_ids fresh in
    let appended : put r l.reservations ≡ l.reservations ++ r ∷ [] =
      put_new r l.reservations (find_of_count id l.reservations (omega (arith, v.places id))) in
    rw appended (record {
      within = λ s a. omega (
        arith,
        active-append l.reservations r a,
        axes_over-empty (λ axis. l.consumed axis + active l.reservations axis + reserved axis)
            l.ceilings fits a,
      );
      charged = v.charged;
      places = λ j. omega (
        arith,
        v.places j,
        count-add_id id j l.used_ids fresh,
        count-map-append (λ (x : Reservation). x.reservation_id) l.reservations r j,
      );
      once = λ j. once-add_id id j l.used_ids fresh (v.once j);
      cause = v.cause;
    })

is_empty-append_one {ℓ} : {A : Type ℓ} (xs : List A) (x : A) → is_empty (xs ++ x ∷ []) ≡ false
is_empty-append_one [] x = refl
is_empty-append_one (y ∷ xs) x = refl

-- A reservation that does not fit breaches the ledger and is recorded.
reserve_exceeds-IsSound :
    (id : String) (rejection : Rejection) (l : Ledger)
    → IsSound l
    → contains id l.used_ids ≡ false
    → rejection.reservation_id ≡ id
    → IsSound (record l {
      used_ids = add_id id l.used_ids;
      breached = true;
      rejections = l.rejections ++ rejection ∷ [];
    })
reserve_exceeds-IsSound id rejection l v fresh named = record {
  within = λ s a. cc;
  charged = v.charged;
  places = λ j. ground (
    arith,
    v.places j,
    count-add_id id j l.used_ids fresh,
    count-map-append (λ (x : Rejection). x.reservation_id) l.rejections rejection j,
  );
  once = λ j. once-add_id id j l.used_ids fresh (v.once j);
  cause = ground (arith, is_empty-append_one l.rejections rejection);
}

-- What a method leaves, beside its result or error, is sound.
abbrev LeavesSound : {A : Type 0} → Result Error A × Ledger → Type 0
LeavesSound o = IsSound o.1

reserve_locked-IsSound :
    (id : String) (reserved : Amounts) (token : String) (l : Ledger)
    → IsSound l
    → IsSound (reserve_locked id reserved token l).1
unfolding reserve_locked
reserve_locked-IsSound id reserved token l v =
    if_induction LeavesSound (contains id l.used_ids) (λ used. v)
      λ fresh.
        if_induction LeavesSound l.breached (λ over. v)
          λ sound.
            if_induction LeavesSound (is_empty (exceeded_by reserved l))
              (λ fits. reserve_fits-IsSound id reserved token l v fresh fits)
              (λ exceeds. reserve_exceeds-IsSound id _ l v fresh refl)

-- `reserve` keeps the invariant, whatever its arguments.
pub reserve-IsSound :
    (id maximums : Value) (token : String) (l : Ledger)
    → IsSound l
    → IsSound (reserve id maximums token l).1
unfolding reserve
reserve-IsSound id maximums token l v =
    attempt_induction LeavesSound (reserve_arguments id maximums) _ l (λ e _. v)
      λ (arguments : String × Amounts) _. reserve_locked-IsSound arguments.0 arguments.1 token l v

-- The entry that `find` returns has the key that was asked for.
claim-eq-ok :
    (id : String) (token : Value) (l : Ledger) (r : Reservation)
    → claim id token l ≡ ok r
    → find id l.reservations ≡ some r
unfolding claim check_token
claim-eq-ok id token l r h = ground arith

release-IsSound :
    (id : String) (r : Reservation) (l : Ledger)
    → IsSound l
    → find id l.reservations ≡ some r
    → IsSound (release id l).1
unfolding release
release-IsSound id r l v found = record {
  within = λ s a. omega (arith, v.within s a, active-discard id l.reservations r a found);
  charged = v.charged;
  places = λ j. omega (
    arith,
    v.places j,
    count-discard id j l.reservations r found,
    count-append j l.pre_call_cancellations (id ∷ []),
  );
  once = v.once;
  cause = v.cause;
}

-- `cancel_before_call` keeps the invariant.
pub cancel_before_call-IsSound :
    (id : String) (token : Value) (l : Ledger)
    → IsSound l
    → IsSound (cancel_before_call id token l).1
unfolding cancel_before_call
cancel_before_call-IsSound id token l v =
    attempt_induction LeavesSound (claim id token l) _ l (λ e _. v)
      λ r claimed. release-IsSound id r l v (claim-eq-ok id token l r claimed)

-- Without an overage the charge is at most what was reserved, so it stays under the ceilings.
pub settled_within :
    (id status : String) (reserved charged : Amounts) (receipt : Option String) (l : Ledger)
    (a : Axis)
    → is_over (settlement id reserved charged status receipt l) ≡ false
    → charged a ≤ reserved a
unfolding is_over settlement
settled_within id status reserved charged receipt l a h =
    axes_over-empty charged reserved (ground arith) a

booked-IsSound :
    (id status : String) (r : Reservation) (charged : Amounts) (receipt : Option String)
    (l : Ledger)
    → IsSound l
    → find id l.reservations ≡ some r
    → let event = settlement id r.reserved charged status receipt l in
      IsSound (record l {
        reservations = discard id l.reservations;
        consumed = charge l.consumed charged;
        events = l.events ++ event ∷ [];
        breached = l.breached || is_over event;
      })
unfolding charge
booked-IsSound id status r charged receipt l v found =
    let event = settlement id r.reserved charged status receipt l in
    let fine : (l.breached || is_over event) ≡ false
        → (l.breached ≡ false) × (is_over event ≡ false) =
      λ s. ground arith in
    record {
      within = λ s a. omega (
        arith,
        v.within (fine s).0 a,
        active-discard id l.reservations r a found,
        settled_within id status r.reserved charged receipt l a (fine s).1,
      );
      charged =
          λ a. unfold settlement in omega (arith, v.charged a, charges-append l.events event a);
      places = λ j.
          unfold settlement in
          omega (
            arith,
            v.places j,
            count-discard id j l.reservations r found,
            count-map-append (λ (e : Event). e.reservation_id) l.events event j,
          );
      once = v.once;
      cause = ground (arith, v.cause, any-append_one l.events event);
    }

settle_claimed-IsSound :
    (id status : String) (r : Reservation) (charged : Amounts) (receipt : Option String)
    (l : Ledger)
    → IsSound l
    → find id l.reservations ≡ some r
    → IsSound (settle_claimed id r.reserved charged status receipt l).1
unfolding settle_claimed
settle_claimed-IsSound id status r charged receipt l v found =
    let sound = booked-IsSound id status r charged receipt l v found in
    if_induction LeavesSound (is_over (settlement id r.reserved charged status receipt l))
      (λ over. sound) (λ fine. sound)

-- `settle` keeps the invariant, also when it raises after booking the charge.
pub settle-IsSound :
    (id : String) (actuals : Value) (status : String) (receipt token : Value) (l : Ledger)
    → IsSound l
    → IsSound (settle id actuals status receipt token l).1
unfolding settle
settle-IsSound id actuals status receipt token l v =
    attempt_induction LeavesSound (settle_arguments actuals status receipt) _ l (λ e _. v)
      λ arguments _.
        attempt_induction LeavesSound (claim id token l) _ l (λ e _. v)
          λ r claimed.
            settle_claimed-IsSound id status r arguments.0 arguments.1 l v
              (claim-eq-ok id token l r claimed)

pub initial-IsSound : (limits : Amounts) → IsSound (initial limits)
unfolding initial active sum_amounts
initial-IsSound limits = record {
  within = λ s a. omega arith;
  charged = λ a. refl;
  places = λ id. refl;
  once = λ id. omega arith;
  cause = refl;
}

initial-eq-ok :
    (limits : Amounts) (l : Ledger)
    → (raise_if (limits calls == 0) zero_call_ceiling >> ok (initial limits)) ≡ ok l
    → initial limits ≡ l
initial-eq-ok limits l h = ground arith

-- A ledger that `create` returns is sound.
pub create-IsSound : (ceilings : Value) (l : Ledger) → create ceilings ≡ ok l → IsSound l
unfolding create
create-IsSound ceilings l h =
    let (limits, made, _) = returned_by (amounts false ceilings) _ l h in
    subst IsSound (initial-eq-ok limits l made) (initial-IsSound limits)

after-IsSound : (c : Call) (l : Ledger) → IsSound l → IsSound (after c l)
unfolding after
after-IsSound (reserving id maximums token) l v = reserve-IsSound id maximums token l v
after-IsSound (cancelling id token) l v = cancel_before_call-IsSound id token l v
after-IsSound (settling id actuals status receipt token) l v =
    settle-IsSound id actuals status receipt token l v

-- Whatever calls are made on a sound ledger, in whatever order and with whatever arguments, also
-- those that raise, it stays sound: short of a breach no ceiling can be passed by what is spent
-- and reserved, every settled call is charged once, every id that was used is in exactly one of
-- the four places, and the breach flag tells exactly whether an overage or a rejection happened.
pub run-IsSound : (cs : List Call) (l : Ledger) → IsSound l → IsSound (run cs l)
unfolding run
run-IsSound [] l v = v
run-IsSound (c ∷ rest) l v = run-IsSound rest (after c l) (after-IsSound c l v)
