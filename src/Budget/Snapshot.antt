-- ===== src/Budget/Snapshot.antt =====
-- `snapshot` of src/prompt_performance_engine/frontier_budget.py: the public view of a ledger. It
-- changes nothing, and the tokens of the reservations are not in it. The digest over the canonical
-- JSON of the other fields (`hash_payload`) is a function given to the model.
use prompt_performance_engin.Prelude.{
  ◌+◌, ◌-◌, ◌≡◌, List, String, map, ◌∷◌, false, Bool, arith, count, [], refl,
}
use prompt_performance_engin.Budget.Amounts.{Amounts, Axis, sum_amounts}
use prompt_performance_engin.Budget.Ledger.{Ledger, Reservation, Event, active, Rejection}
use prompt_performance_engin.Prelude.Sort.{insert_by, sort_by, count-sort_by}
use prompt_performance_engin.Budget.Invariant.{IsSound, active_ids}

pub record ActiveReservation : Type 0 where
  pub reservation_id : String
  pub reserved : Amounts

pub record Snapshot : Type 0 where
  pub ceilings : Amounts
  pub consumed : Amounts
  pub active_reserved : Amounts
  pub remaining_unreserved : Amounts
  pub active_reservations : List ActiveReservation
  pub events : List Event
  pub pre_call_cancellations : List String
  pub reservation_rejections : List Rejection
  pub breached : Bool
  pub ledger_sha256 : String

abbrev reservation_key : Reservation → String
reservation_key r = r.reservation_id

-- The keys of a dict are distinct, so its entries in the order of their keys are its keys sorted,
-- each with what it is mapped to.
unfoldable pub listed : List Reservation → List ActiveReservation
listed rs =
    map (λ (r : Reservation). record { reservation_id = r.reservation_id; reserved = r.reserved })
      (sort_by reservation_key rs)

-- Every field but the digest, which is taken over these.
unfoldable pub snapshot_body : Ledger → Snapshot
snapshot_body l = record {
  ceilings = l.ceilings;
  consumed = l.consumed;
  active_reserved = active l.reservations;
  remaining_unreserved = λ axis. l.ceilings axis - l.consumed axis - active l.reservations axis;
  active_reservations = listed l.reservations;
  events = l.events;
  pre_call_cancellations = l.pre_call_cancellations;
  reservation_rejections = l.rejections;
  breached = l.breached;
  ledger_sha256 = "";
}

unfoldable pub snapshot : (Snapshot → String) → Ledger → Snapshot
unfolding snapshot_body
snapshot hash_payload l =
    let body = snapshot_body l in record body { ledger_sha256 = hash_payload body }

active-insert_by :
    (r : Reservation) (rs : List Reservation) (a : Axis)
    → active (insert_by reservation_key r rs) a ≡ r.reserved a + active rs a
unfolding insert_by active
active-insert_by r [] a = refl
active-insert_by r (s ∷ rs) a = ground (arith, active-insert_by r rs a)

active-sort_by :
    (rs : List Reservation) (a : Axis) → active (sort_by reservation_key rs) a ≡ active rs a
unfolding sort_by active
active-sort_by [] a = refl
active-sort_by (r ∷ rs) a =
    omega (arith, active-insert_by r (sort_by reservation_key rs) a, active-sort_by rs a)

abbrev pub reserved_amounts : List ActiveReservation → List Amounts
reserved_amounts = map (λ (r : ActiveReservation). r.reserved)

listed-reserved :
    (rs : List Reservation)
    → reserved_amounts (
        map
          (λ (r : Reservation). record { reservation_id = r.reservation_id; reserved = r.reserved })
          rs)
      ≡ map (λ (r : Reservation). r.reserved) rs
listed-reserved [] = refl
listed-reserved (r ∷ rs) = cc (listed-reserved rs)

listed-ids :
    (rs : List Reservation)
    → map
        (λ (r : ActiveReservation). r.reservation_id)
        (map
          (λ (r : Reservation). record { reservation_id = r.reservation_id; reserved = r.reserved })
          rs)
      ≡ map reservation_key rs
listed-ids [] = refl
listed-ids (r ∷ rs) = cc (listed-ids rs)

-- In the snapshot of a sound ledger that is not breached, what is spent, reserved and left make up
-- the ceiling on every axis. In any ledger the reservations listed are exactly the active ones, and
-- their amounts add up to the total that is shown.
pub snapshot_balances :
    (hash_payload : Snapshot → String) (l : Ledger)
    → IsSound l
    → let s = snapshot hash_payload l in
      (s.breached ≡ false
        → (a : Axis) → s.consumed a + s.active_reserved a + s.remaining_unreserved a ≡ s.ceilings a)
      × ((id : String)
          → count id (map (λ (r : ActiveReservation). r.reservation_id) s.active_reservations)
            ≡ count id (active_ids l))
      × ((a : Axis) → sum_amounts (reserved_amounts s.active_reservations) a ≡ s.active_reserved a)
unfolding snapshot listed
snapshot_balances hash_payload l v = (
  (λ s a. omega (arith, v.within s a)),
  (λ id. rw listed-ids (count-sort_by reservation_key id l.reservations)),
  (λ a. rw listed-reserved (unfold active in active-sort_by l.reservations a)),
)
