-- ===== src/Budget/Ledger.antt =====
-- `class BudgetLedger` of src/prompt_performance_engine/frontier_budget.py. Every method holds the
-- lock for its whole effect, so a method is one step on the state; what it wrote before a raise
-- stays written, so the state comes back beside the error. The token that `secrets.token_hex`
-- draws is an argument of `reserve`.
use prompt_performance_engin.Prelude.{
  ◌+◌, Bool, true, false, ◌&&◌, ◌||◌, not, List, [], ◌∷◌, ◌++◌, Option, none, some, String, map,
  is_empty, select, any, contains, str_eq, ◌==◌, if◌then◌else◌,
}
use prompt_performance_engin.Prelude.Text.{
  codes, is_alphanumeric, matches_identifier, is_sha256, is_ascii,
}
use prompt_performance_engin.Prelude.Result.{
  Result, ok, err, ◌>>=◌, ◌>>◌, ensure, raise_if, attempt,
}
use prompt_performance_engin.Prelude.Value.{Value}
use prompt_performance_engin.Budget.Amounts.{
  Axis, Amounts, Error, amounts, sum_amounts, axes_over, calls, zero_call_ceiling,
  bad_reservation_id, reused_reservation_id, already_breached, reservation_exceeds, not_active,
  bad_token, token_not_ascii, bad_status, bad_receipt, settlement_breached, axis_eq, axes_by_name,
}

-- One entry of `_reservations`: the key, and the pair of amounts and token.
pub record Reservation : Type 0 where
  pub reservation_id : String
  pub reserved : Amounts
  pub reservation_token : String

pub record Event : Type 0 where
  pub reservation_id : String
  pub status : String
  pub reserved : Amounts
  pub charged : Amounts
  pub receipt_sha256 : Option String
  pub over_reserved_axes : List Axis
  pub over_ceiling_axes : List Axis

pub record Rejection : Type 0 where
  pub reservation_id : String
  pub requested : Amounts
  pub exceeded_axes : List Axis

pub record Ledger : Type 0 where
  pub ceilings : Amounts
  pub consumed : Amounts
  pub reservations : List Reservation
  pub used_ids : List String
  pub events : List Event
  pub pre_call_cancellations : List String
  pub rejections : List Rejection
  pub breached : Bool

-- `_reservations.get(reservation_id)`
unfoldable pub find : String → List Reservation → Option Reservation
find id [] = none
find id (r ∷ rs) = if str_eq r.reservation_id id then some r else find id rs

-- `del _reservations[reservation_id]`
unfoldable pub discard : String → List Reservation → List Reservation
discard id [] = []
discard id (r ∷ rs) = if str_eq r.reservation_id id then rs else r ∷ discard id rs

-- `_reservations[reservation_id] = (reserved, reservation_token)`
unfoldable pub put : Reservation → List Reservation → List Reservation
put r [] = r ∷ []
put r (s ∷ rs) = if str_eq s.reservation_id r.reservation_id then r ∷ rs else s ∷ put r rs

-- `_used_ids.add(reservation_id)`
unfoldable pub add_id : String → List String → List String
add_id id ids = if contains id ids then ids else id ∷ ids

-- The worst case of all the calls in flight.
unfoldable pub active : List Reservation → Amounts
unfolding sum_amounts
active rs = sum_amounts (map (λ r. r.reserved) rs)

-- The state that `__init__` sets up.
unfoldable pub initial : Amounts → Ledger
initial limits = record {
  ceilings = limits;
  consumed = λ axis. 0;
  reservations = [];
  used_ids = [];
  events = [];
  pre_call_cancellations = [];
  rejections = [];
  breached = false;
}

-- `__init__`
unfoldable pub create : Value → Result Error Ledger
unfolding initial
create ceilings = do
  limits ← amounts false ceilings
  raise_if (limits calls == 0) zero_call_ceiling
  ok (initial limits)

-- `IDENTIFIER_RE`: `[A-Za-z0-9][A-Za-z0-9._-]{0,127}`
unfoldable pub is_identifier : String → Bool
unfolding is_alphanumeric matches_identifier
is_identifier s =
    matches_identifier is_alphanumeric
      (λ c. is_alphanumeric c || c == b'.' || c == b'_' || c == b'-') 127 (codes s)

unfoldable pub checked_id : Value → Result Error String
checked_id (Value.str s) = if is_identifier s then ok s else err bad_reservation_id
checked_id _ = err bad_reservation_id

-- The axes on which one more reservation passes a ceiling.
unfoldable pub exceeded_by : Amounts → Ledger → List Axis
unfolding axes_over active
exceeded_by reserved l =
    axes_over (λ axis. l.consumed axis + active l.reservations axis + reserved axis) l.ceilings

-- `reserve`, from the line that takes the lock.
unfoldable pub reserve_locked :
    String → Amounts → String → Ledger → Result Error Reservation × Ledger
reserve_locked id reserved token l =
    if contains id l.used_ids
    then (err reused_reservation_id, l)
    else if l.breached
    then (err already_breached, l)
    else if is_empty (exceeded_by reserved l)
    then (
      ok (record { reservation_id = id; reserved = reserved; reservation_token = token }),
      record l {
        used_ids = add_id id l.used_ids;
        reservations =
            put (record { reservation_id = id; reserved = reserved; reservation_token = token })
              l.reservations;
      },
    )
    else (
      err (reservation_exceeds (exceeded_by reserved l)),
      record l {
        used_ids = add_id id l.used_ids;
        breached = true;
        rejections =
            l.rejections
            ++ record {
              reservation_id = id;
              requested = reserved;
              exceeded_axes = exceeded_by reserved l;
            }
              ∷ [];
      },
    )

-- The arguments of `reserve` are checked before the lock is taken.
unfoldable pub reserve_arguments : Value → Value → Result Error (String × Amounts)
unfolding checked_id
reserve_arguments reservation_id maximums = do
  id ← checked_id reservation_id
  reserved ← amounts true maximums
  ok (id, reserved)

unfoldable pub reserve : Value → Value → String → Ledger → Result Error Reservation × Ledger
reserve reservation_id maximums token =
    attempt (reserve_arguments reservation_id maximums)
      λ (arguments : String × Amounts). reserve_locked arguments.0 arguments.1 token

-- `hmac.compare_digest` raises a `TypeError` at text that is not ASCII.
unfoldable pub check_token : String → Value → Result Error Unit
check_token expected (Value.str token) =
    if is_ascii expected && is_ascii token
    then ensure (str_eq expected token) bad_token
    else err token_not_ascii
check_token expected _ = err bad_token

-- `_reservations.get` and the token test, which `cancel_before_call` and `settle` share.
unfoldable pub claim : String → Value → Ledger → Result Error Reservation
claim id token l = elim (find id l.reservations) [
  | none ↦ err not_active
  | some r ↦ check_token r.reservation_token token >> ok r
]

-- The effect of a cancellation.
unfoldable pub release : String → Ledger → Result Error Unit × Ledger
release id l = (
  ok tt,
  record l {
    reservations = discard id l.reservations;
    pre_call_cancellations = l.pre_call_cancellations ++ id ∷ [];
  },
)

unfoldable pub cancel_before_call : String → Value → Ledger → Result Error Unit × Ledger
cancel_before_call id token l = attempt (claim id token l) (λ (r : Reservation). release id) l

-- `TERMINAL_STATUSES`
abbrev pub terminal_statuses : List String
terminal_statuses =
    "success" ∷ "failure" ∷ "timeout" ∷ "refusal" ∷ "quota" ∷ "malformed" ∷ "cancelled_after_call"
    ∷ []

unfoldable pub checked_receipt : Value → Result Error (Option String)
checked_receipt Value.null = ok none
checked_receipt (Value.str s) = if is_sha256 s then ok (some s) else err bad_receipt
checked_receipt _ = err bad_receipt

unfoldable pub settle_arguments : Value → String → Value → Result Error (Amounts × Option String)
unfolding checked_receipt
settle_arguments actuals status receipt = do
  charged ← amounts true actuals
  ensure (contains status terminal_statuses) bad_status
  digest ← checked_receipt receipt
  ok (charged, digest)

unfoldable pub charge : Amounts → Amounts → Amounts
charge consumed charged axis = consumed axis + charged axis

-- The event that a settlement records.
unfoldable pub settlement : String → Amounts → Amounts → String → Option String → Ledger → Event
unfolding axes_over charge
settlement id reserved charged status receipt l = record {
  reservation_id = id;
  status = status;
  reserved = reserved;
  charged = charged;
  receipt_sha256 = receipt;
  over_reserved_axes = axes_over charged reserved;
  over_ceiling_axes = axes_over (charge l.consumed charged) l.ceilings;
}

unfoldable pub is_over : Event → Bool
is_over e = not (is_empty e.over_reserved_axes) || not (is_empty e.over_ceiling_axes)

-- `sorted(set(over_reserved + over_ceiling))`: the axes in the order of their names.
unfoldable pub breach_axes : Event → List Axis
breach_axes e =
    select (λ axis. any (λ over. axis_eq over axis) (e.over_reserved_axes ++ e.over_ceiling_axes))
      axes_by_name

-- The body of `settle` once the reservation is claimed: the charge is booked before any raise.
unfoldable pub settle_claimed :
    String → Amounts → Amounts → String → Option String → Ledger → Result Error Event × Ledger
settle_claimed id reserved charged status receipt l =
    let event = settlement id reserved charged status receipt l in
    let after = record l {
      reservations = discard id l.reservations;
      consumed = charge l.consumed charged;
      events = l.events ++ event ∷ [];
      breached = l.breached || is_over event;
    } in
    if is_over event
    then (err (settlement_breached (breach_axes event)), after)
    else (ok event, after)

unfoldable pub settle :
    String → Value → String → Value → Value → Ledger → Result Error Event × Ledger
settle id actuals status receipt token l =
    attempt (settle_arguments actuals status receipt)
      (λ (arguments : Amounts × Option String) (s : Ledger).
        attempt (claim id token s)
          (λ (r : Reservation). settle_claimed id r.reserved arguments.0 status arguments.1) s)
      l

-- All of the methods' code: a test names it to see through every one of them.
unfoldable pub methods : Unit {0}
unfolding reserve reserve_arguments checked_id is_identifier reserve_locked exceeded_by add_id put
    cancel_before_call release claim find check_token settle settle_arguments settle_claimed
    settlement is_over discard breach_axes is_ascii is_sha256 amounts active sum_amounts axes_over
    charge
methods = tt
