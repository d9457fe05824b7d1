-- ===== src/Budget/Invariant.antt =====
-- The invariant of the budget ledger, and the lemmas on its collections.
use prompt_performance_engin.Prelude.{
  ◌+◌, ◌≤◌, ◌≡◌, refl, true, false, ◌||◌, not, List, [], ◌∷◌, ◌++◌, none, some, String, map,
  is_empty, any, count, eq_iff, eq_refl, arith,
}
use prompt_performance_engin.Budget.Amounts.{
  Axis, calls, input_tokens, output_tokens, money_microunits, wall_clock_ms, Amounts, sum_amounts,
  axes_over,
}
use prompt_performance_engin.Budget.Ledger.{
  Reservation, Event, Rejection, Ledger, find, discard, put, active, is_over,
}

abbrev pub active_ids : Ledger → List String
active_ids l = map (λ (r : Reservation). r.reservation_id) l.reservations

abbrev pub settled_ids : Ledger → List String
settled_ids l = map (λ (e : Event). e.reservation_id) l.events

abbrev pub rejected_ids : Ledger → List String
rejected_ids l = map (λ (r : Rejection). r.reservation_id) l.rejections

abbrev pub charges : Ledger → List Amounts
charges l = map (λ (e : Event). e.charged) l.events

-- `within`: short of a breach, what is spent and what may yet be spent fit under every ceiling.
-- `charged`: every settled call is charged, once. `places`: an id that was used is active, settled,
-- cancelled or rejected, and `once`: in one of these only, one time. `cause`: the ledger is
-- breached exactly when it has a rejection or an overage on record.
pub record IsSound (l : Ledger) : Type 0 where
  pub within :
      l.breached ≡ false → (a : Axis) → l.consumed a + active l.reservations a ≤ l.ceilings a
  pub charged : (a : Axis) → l.consumed a ≡ sum_amounts (charges l) a
  pub places :
      (id : String)
      → count id l.used_ids
        ≡ count id (active_ids l)
          + count id (settled_ids l)
          + count id l.pre_call_cancellations
          + count id (rejected_ids l)
  pub once : (id : String) → count id l.used_ids ≤ 1
  pub cause : l.breached ≡ (not (is_empty l.rejections) || any is_over l.events)

-- No axis is over exactly when none is.
pub axes_over-empty :
    (left right : Amounts) → is_empty (axes_over left right) ≡ true → (a : Axis) → left a ≤ right a
unfolding axes_over
axes_over-empty left right h calls = ground arith
axes_over-empty left right h input_tokens = ground arith
axes_over-empty left right h output_tokens = ground arith
axes_over-empty left right h money_microunits = ground arith
axes_over-empty left right h wall_clock_ms = ground arith

pub axes_over-empty_of_le :
    (left right : Amounts)
    → ((a : Axis) → left a ≤ right a)
    → is_empty (axes_over left right) ≡ true
unfolding axes_over
axes_over-empty_of_le left right h =
    ground (arith, h calls, h input_tokens, h output_tokens, h money_microunits, h wall_clock_ms)

pub sum_amounts-append :
    (xs : List Amounts) (x : Amounts) (a : Axis)
    → sum_amounts (xs ++ x ∷ []) a ≡ sum_amounts xs a + x a
unfolding sum_amounts
sum_amounts-append [] x a = omega arith
sum_amounts-append (y ∷ xs) x a = omega (arith, sum_amounts-append xs x a)

-- A reservation that is found leaves with its amounts, and with one mention of its id.
pub active-discard :
    (id : String) (rs : List Reservation) (r : Reservation) (a : Axis)
    → find id rs ≡ some r
    → active rs a ≡ active (discard id rs) a + r.reserved a
unfolding find discard active
active-discard id [] r a h = cc
active-discard id (s ∷ rs) r a h = ground (arith, active-discard id rs r a)

abbrev pub ids : List Reservation → List String
ids rs = map (λ (r : Reservation). r.reservation_id) rs

pub count-discard :
    (id j : String) (rs : List Reservation) (r : Reservation)
    → find id rs ≡ some r
    → count j (ids rs) ≡ count j (ids (discard id rs)) + count j (id ∷ [])
unfolding find discard
count-discard id j [] r h = cc
count-discard id j (s ∷ rs) r h = ground (
  arith,
  count-discard id j rs r,
  eq_iff s.reservation_id id,
  eq_iff id j,
  eq_iff s.reservation_id j,
)

pub find_of_count :
    (id : String) (rs : List Reservation) → count id (ids rs) ≡ 0 → find id rs ≡ none
unfolding find
find_of_count id [] h = refl
find_of_count id (s ∷ rs) h = ground (arith, find_of_count id rs)

-- A reservation under a new id comes last.
pub put_new :
    (r : Reservation) (rs : List Reservation)
    → find r.reservation_id rs ≡ none
    → put r rs ≡ rs ++ r ∷ []
unfolding find put
put_new r [] h = refl
put_new r (s ∷ rs) h = ground (arith, put_new r rs)

pub active-append :
    (rs : List Reservation) (r : Reservation) (a : Axis)
    → active (rs ++ r ∷ []) a ≡ active rs a + r.reserved a
unfolding active
active-append [] r a = omega arith
active-append (s ∷ rs) r a = omega (arith, active-append rs r a)

pub find-append_self :
    (r : Reservation) (rs : List Reservation)
    → find r.reservation_id rs ≡ none
    → find r.reservation_id (rs ++ r ∷ []) ≡ some r
unfolding find
find-append_self r [] h = rw eq_refl
find-append_self r (s ∷ rs) h = ground (arith, find-append_self r rs)

pub any-append_one :
    (events : List Event) (e : Event)
    → any is_over (events ++ e ∷ []) ≡ (any is_over events || is_over e)
any-append_one [] e = ground arith
any-append_one (f ∷ events) e = ground (arith, any-append_one events e)
