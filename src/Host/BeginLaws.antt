-- ===== src/Host/BeginLaws.antt =====
-- `begin` keeps the invariant: an attempt that is dispatched holds its slot and its reservation, and
use mathlib.Core.List.{map-append}
-- one that is refused holds neither.
use prompt_performance_engin.Prelude.{
  ℕ, ◌+◌, ◌-◌, ◌≡◌, refl, ap, sym, ◌∙◌, subst, Bool, true, false, String, str_eq, eq_iff, eq_refl,
  contains, count, count_of_not_contains, Option, none, some, List, [], ◌∷◌, ◌++◌, All, arith,
  fun_ext, if_induction, Option-cases, leb, if◌then◌else◌, Bool-cases, ap₂, inl, inr, is_empty,
}
use prompt_performance_engin.Prelude.Value.{Value}
use prompt_performance_engin.Prelude.Text.{is_ascii}
use prompt_performance_engin.Prelude.Result.{Result, ok, err, attempt_induction}
use prompt_performance_engin.Budget.Amounts.{
  Error as LedgerError, reused_reservation_id, already_breached, reservation_exceeds,
  bad_reservation_id,
}
use prompt_performance_engin.Budget.Ledger.{
  Ledger, Reservation, find, put, reserve, reserve_locked, exceeded_by, is_identifier,
}
use prompt_performance_engin.Budget.Invariant.{IsSound, find_of_count, put_new, ids}
use prompt_performance_engin.Budget.Soundness.{reserve-IsSound, count-map-append}
use prompt_performance_engin.Host.Plan.{
  Frozen, Component, HostState, Slot, find_component, amounts_value,
}
use prompt_performance_engin.Host.Attempt.{
  Error, Arguments, Digests, Dispatched, Request, begin, prepare, dispatch, after_claim,
  after_reserve, claim_slot, release_slot, remove, unknown_component, slot_consumed,
  capacity_exhausted,
}
use prompt_performance_engin.Host.Steps.{attempt_of, begun}
use prompt_performance_engin.Host.Invariant.{
  IsSized, IsPlanned, IsReady, IsConsistent, reservation_of, All-append,
}
use prompt_performance_engin.Host.LedgerCalls.{reserve-sized}

-- What `_claim_slot` leaves when it accepts.
abbrev pub taken : Slot → HostState → HostState
taken slot s = record s {
  used_slots = slot.slot_id ∷ s.used_slots;
  allocated = λ id. if str_eq slot.component_id id then s.allocated id + 1 else s.allocated id;
}

remove-cons : (id : String) (used : List String) → remove id (id ∷ used) ≡ used
unfolding remove
remove-cons id used = rw (eq_refl id) refl

one_less :
    (a b : String) (n : ℕ)
    → (if str_eq a b
        then (if str_eq a b then n + 1 else n) - 1
        else (if str_eq a b then n + 1 else n))
      ≡ n
one_less a b n = ground arith

-- To claim a slot and give it back is to do nothing.
release_slot-taken :
    (slot : Slot) (s : HostState) (l : Ledger)
    → release_slot slot (record (taken slot s) { ledger = l }) ≡ record s { ledger = l }
unfolding release_slot
release_slot-taken slot s l =
    ap₂ (λ used allocated. record s { ledger = l; used_slots = used; allocated = allocated })
      (remove-cons slot.slot_id s.used_slots)
      (fun_ext (λ id. one_less slot.component_id id (s.allocated id)))

some_component : {a b : Component} → ◌≡◌ {A = Option Component} (some a) (some b) → a ≡ b
some_component h = cc

pub find_component-All :
    (P : Component → Type 0) (id : String) (cs : List Component) (c : Component)
    → All P cs
    → find_component id cs ≡ some c
    → P c
unfolding find_component
find_component-All P id [] c h found = cc
find_component-All P id (k ∷ cs) c (p, h) found = elim (Bool-cases (str_eq k.component_id id)) [
  | inl e ↦ subst P (some_component (sym (rw e refl) ∙ found)) p
  | inr e ↦ find_component-All P id cs c h (sym (rw e refl) ∙ found)
]

module _ (frozen : Frozen) (ds : List Dispatched) where
  abbrev Begun : Result Error Dispatched × HostState → Type 0
  Begun o = IsConsistent frozen (begun ds o)

  module _ (s : HostState) (v : IsConsistent frozen (record { host = s; in_flight = ds })) where
    -- A refusal of the ledger changes none of its reservations.
    refused-IsConsistent :
        (l : Ledger)
        → IsSound l
        → l.reservations ≡ s.ledger.reservations
        → IsConsistent frozen (record { host = record s { ledger = l }; in_flight = ds })
    refused-IsConsistent l sound same = record {
      sound = sound;
      mirror = same ∙ v.mirror;
      places = λ id. rw same (v.places id);
      once = v.once;
      allocated = v.allocated;
      capacity = v.capacity;
      receipts = v.receipts;
      unique = v.unique;
      ready = v.ready;
      authorized = v.authorized;
    }

    -- A new reservation.
    reserved-IsConsistent :
        (d : Dispatched) (l : Ledger) (c : Component)
        → IsSound l
        → l.reservations ≡ put (reservation_of d) s.ledger.reservations
        → contains (attempt_of d) s.ledger.used_ids ≡ false
        → contains (attempt_of d) s.used_slots ≡ false
        → find_component d.request.slot.component_id frozen.components ≡ some c
        → leb c.capacity (s.allocated d.request.slot.component_id) ≡ false
        → IsReady d
        → IsConsistent frozen (record {
          host = record (taken d.request.slot s) { ledger = l };
          in_flight = ds ++ d ∷ [];
        })
    reserved-IsConsistent d l c sound added unused free found room ready =
        let gone : find (attempt_of d) s.ledger.reservations ≡ none =
          find_of_count (attempt_of d) s.ledger.reservations (
            omega (
              arith,
              v.sound.places (attempt_of d),
              count_of_not_contains (attempt_of d) s.ledger.used_ids unused,
            )) in
        let longer : l.reservations ≡ s.ledger.reservations ++ reservation_of d ∷ [] =
          added ∙ put_new (reservation_of d) s.ledger.reservations gone in
        record {
          sound = sound;
          mirror =
              longer
              ∙ ap (λ rs. rs ++ reservation_of d ∷ []) v.mirror
              ∙ sym (map-append reservation_of ds (d ∷ []));
          places = λ id. ground (
            arith,
            v.places id,
            ap (λ rs. count id (ids rs)) longer,
            count-map-append (λ (r : Reservation). r.reservation_id) s.ledger.reservations
                (reservation_of d) id,
          );
          once = λ id. ground (
            arith,
            v.once id,
            count_of_not_contains (attempt_of d) s.used_slots free,
            eq_iff (attempt_of d) id,
          );
          allocated = λ id. ground (
            arith,
            v.allocated id,
            count-map-append (λ (e : Dispatched). e.request.slot.component_id) ds d id,
          );
          capacity = λ id k h.
              ground (arith, v.capacity id k h, found, room, eq_iff d.request.slot.component_id id);
          receipts = v.receipts;
          unique = v.unique;
          ready = All-append IsReady ds d v.ready ready;
          authorized = v.authorized;
        }

  -- The ledger's answer, with the slot claimed.
  after_reserve-Begun :
      (s : HostState) (request : Request) (token : String) (c : Component)
      → IsConsistent frozen (record { host = s; in_flight = ds })
      → contains request.slot.slot_id s.used_slots ≡ false
      → find_component request.slot.component_id frozen.components ≡ some c
      → leb c.capacity (s.allocated request.slot.component_id) ≡ false
      → IsSized c.maximums
      → is_ascii token ≡ true
      → Begun (
          after_reserve request c
            (taken request.slot s)
            (reserve (Value.str request.slot.slot_id) (amounts_value c.maximums) token s.ledger))
  unfolding after_reserve reserve_locked
  after_reserve-Begun s request token c v free found room sized ascii =
      let answer = reserve-sized request.slot.slot_id c.maximums token s.ledger sized in
      let sound : IsSound
          (reserve (Value.str request.slot.slot_id) (amounts_value c.maximums) token s.ledger).1 =
        reserve-IsSound (Value.str request.slot.slot_id) (amounts_value c.maximums) token s.ledger
          v.sound in
      let P = λ (o : Result LedgerError Reservation × Ledger).
        IsSound o.1 → Begun (after_reserve request c (taken request.slot s) o) in
      let back =
        λ (e : LedgerError) (l : Ledger) (k : IsSound l)
            (same : l.reservations ≡ s.ledger.reservations).
          subst (λ t. IsConsistent frozen (record { host = t; in_flight = ds }))
            (sym (release_slot-taken request.slot s l)) (refused-IsConsistent s v l k same) in
      subst P (sym answer)
        (if_induction P (is_identifier request.slot.slot_id)
          (λ named.
            if_induction P (contains request.slot.slot_id s.ledger.used_ids)
              (λ used k. back reused_reservation_id s.ledger k refl)
              (λ unused.
                if_induction P s.ledger.breached (λ b k. back already_breached s.ledger k refl)
                  (λ b.
                    if_induction P (is_empty (exceeded_by c.maximums s.ledger))
                      (λ fits k.
                        reserved-IsConsistent s v
                          (record { component = c; reservation_token = token; request = request }) _
                          c k refl unused free found room (sized, ascii))
                      (λ exceeds k.
                        back (reservation_exceeds (exceeded_by c.maximums s.ledger)) _ k refl))))
          (λ unnamed k. back bad_reservation_id s.ledger k refl))
        sound

  dispatch-Begun :
      (s : HostState) (request : Request) (token : String)
      → IsPlanned frozen
      → is_ascii token ≡ true
      → IsConsistent frozen (record { host = s; in_flight = ds })
      → Begun (dispatch frozen token request s)
  unfolding dispatch after_claim claim_slot
  dispatch-Begun s request token planned ascii v =
      let P = λ (o : Result Error Component × HostState). Begun (after_claim request token o) in
      let slot = request.slot in
      elim (Option-cases (find_component slot.component_id frozen.components)) [
        | inl e ↦
            let claimed : claim_slot frozen slot s ≡ (
                if contains slot.slot_id s.used_slots
                then (err slot_consumed, s)
                else (err unknown_component, s)) =
              rw (e, claim_slot) refl in
            subst P (sym claimed)
              (if_induction P (contains slot.slot_id s.used_slots) (λ used. v) (λ free. v))
        | inr (c, found) ↦
            let claimed : claim_slot frozen slot s ≡ (
                if contains slot.slot_id s.used_slots
                then (err slot_consumed, s)
                else if leb c.capacity (s.allocated slot.component_id)
                then (err capacity_exhausted, s)
                else (ok c, taken slot s)) =
              rw (found, claim_slot) refl in
            subst P (sym claimed) (
              if_induction P (contains slot.slot_id s.used_slots) (λ used. v)
                (λ free.
                  if_induction P (leb c.capacity (s.allocated slot.component_id)) (λ full. v)
                    (λ room.
                      after_reserve-Begun s request token c v free found room
                        (find_component-All (λ k. IsSized k.maximums) slot.component_id
                          frozen.components c planned found)
                        ascii)))
      ]

  -- `begin` keeps the invariant, whatever its arguments and however it ends.
  pub begin-IsConsistent :
      (digests : Digests) (is_expired clock_works : Bool) (token : String) (a : Arguments)
      (s : HostState)
      → IsPlanned frozen
      → is_ascii token ≡ true
      → IsConsistent frozen (record { host = s; in_flight = ds })
      → IsConsistent frozen (begun ds (begin frozen digests is_expired clock_works token a s))
  unfolding begin
  begin-IsConsistent digests is_expired clock_works token a s planned ascii v =
      attempt_induction Begun (prepare frozen digests is_expired clock_works a)
        (dispatch frozen token) s (λ e _. v)
        (λ request _. dispatch-Begun s request token planned ascii v)
