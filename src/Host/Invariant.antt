-- ===== src/Host/Invariant.antt =====
-- What holds of a `FrontierExecutionHost` and the attempts in flight, between any two steps.
use mathlib.Core.Option
use prompt_performance_engin.Prelude.{
  ◌+◌, ◌≤◌, ◌≡◌, refl, true, false, String, str_eq, eq_iff, count, Option, none, some, List, [],
  ◌∷◌, ◌++◌, map, All, arith, if_induction, Bool-cases, inl, subst, inr,
}
use prompt_performance_engin.Prelude.Text.{is_ascii}
use prompt_performance_engin.Budget.Amounts.{Axis, Amounts, calls, max_budget_value}
use prompt_performance_engin.Budget.Ledger.{Reservation, find, discard}
use prompt_performance_engin.Budget.Invariant.{IsSound, active_ids}
use prompt_performance_engin.Host.Plan.{Frozen, Component, Report, find_component}
use prompt_performance_engin.Host.Attempt.{Dispatched}
use prompt_performance_engin.Host.Finish.{add_receipt, is_none}
use prompt_performance_engin.Host.Steps.{System, attempt_of, find_flight, land}

-- Amounts of one call that the ledger takes.
pub record IsSized (a : Amounts) : Type 0 where
  pub one : a calls ≡ 1
  pub small : (x : Axis) → a x ≤ max_budget_value

abbrev pub IsPlanned : Frozen → Type 0
IsPlanned frozen = All (λ (c : Component). IsSized c.maximums) frozen.components

abbrev pub IsReady : Dispatched → Type 0
IsReady d = IsSized d.component.maximums × (is_ascii d.reservation_token ≡ true)

-- The reservation that an attempt in flight holds.
abbrev pub reservation_of : Dispatched → Reservation
reservation_of d = record {
  reservation_id = attempt_of d;
  reserved = d.component.maximums;
  reservation_token = d.reservation_token;
}

abbrev pub reported_ids : List Report → List String
reported_ids = map (λ (r : Report). r.attempt_id)

abbrev pub receipts_of : List Report → List String
receipts_of [] = []
receipts_of (r ∷ rs) = add_receipt r.receipt_sha256 (receipts_of rs)

abbrev pub flight_components : List Dispatched → List String
flight_components = map (λ (d : Dispatched). d.request.slot.component_id)

abbrev pub reported_components : List Report → List String
reported_components = map (λ (r : Report). r.slot.component_id)

-- A report that releases output has a receipt, and says of nothing that it failed.
abbrev pub IsAuthorized : Report → Type 0
IsAuthorized r =
    r.usable ≡ true
    → (r.provider_status ≡ "success") × (r.failure_code ≡ none) × (is_none r.receipt_sha256 ≡ false)

-- `mirror`: the ledger's reservations are those of the attempts in flight. `places`, `once`: a used
-- slot has one attempt, in flight or reported. `allocated`, `capacity`: a component has as many
-- attempts as are in flight or reported, and no more than it may have. `receipts`, `unique`: the
-- receipts are those of the reports, and no two reports have the same.
pub record IsConsistent (frozen : Frozen) (s : System) : Type 0 where
  pub sound : IsSound s.host.ledger
  pub mirror : s.host.ledger.reservations ≡ map reservation_of s.in_flight
  pub places :
      (id : String)
      → count id s.host.used_slots
        ≡ count id (active_ids s.host.ledger) + count id (reported_ids s.host.reports)
  pub once : (id : String) → count id s.host.used_slots ≤ 1
  pub allocated :
      (id : String)
      → s.host.allocated id
        ≡ count id (flight_components s.in_flight) + count id (reported_components s.host.reports)
  pub capacity :
      (id : String) (c : Component)
      → find_component id frozen.components ≡ some c
      → s.host.allocated id ≤ c.capacity
  pub receipts : (r : String) → count r s.host.receipts ≡ count r (receipts_of s.host.reports)
  pub unique : (r : String) → count r s.host.receipts ≤ 1
  pub ready : All IsReady s.in_flight
  pub authorized : All IsAuthorized s.host.reports

pub find-map :
    (id : String) (ds : List Dispatched)
    → find id (map reservation_of ds) ≡ Option.map reservation_of (find_flight id ds)
unfolding find find_flight
find-map id [] = refl
find-map id (d ∷ ds) = ground (arith, find-map id ds)

pub discard-map :
    (id : String) (ds : List Dispatched)
    → discard id (map reservation_of ds) ≡ map reservation_of (land id ds)
unfolding discard land
discard-map id [] = refl
discard-map id (d ∷ ds) = ground (arith, discard-map id ds)

pub land-components :
    (id : String) (ds : List Dispatched) (d : Dispatched) (c : String)
    → find_flight id ds ≡ some d
    → count c (flight_components ds)
      ≡ count c (flight_components (land id ds)) + count c (d.request.slot.component_id ∷ [])
unfolding find_flight land
land-components id [] d c h = cc
land-components id (e ∷ ds) d c h = ground (arith, land-components id ds d c)

some_eq : {a b : Dispatched} → ◌≡◌ {A = Option Dispatched} (some a) (some b) → a ≡ b
some_eq h = cc

module _ (P : Dispatched → Type 0) where
  pub All-land : (id : String) (ds : List Dispatched) → All P ds → All P (land id ds)
  unfolding land
  All-land id [] h = h
  All-land id (d ∷ ds) (p, h) =
      if_induction (All P) (str_eq (attempt_of d) id) (λ e. h) (λ e. (p, All-land id ds h))

  pub find_flight-All :
      (id : String) (ds : List Dispatched) (d : Dispatched)
      → All P ds
      → find_flight id ds ≡ some d
      → P d × (attempt_of d ≡ id)
  unfolding find_flight
  find_flight-All id [] d h found = cc
  find_flight-All id (e ∷ ds) d (p, h) found = elim (Bool-cases (str_eq (attempt_of e) id)) [
    | inl q ↦
        subst (λ x. P x × (attempt_of x ≡ id)) (some_eq (ground (arith, found, q)))
          (p, (eq_iff (attempt_of e) id).0 q)
    | inr q ↦ find_flight-All id ds d h (ground (arith, found, q))
  ]

pub All-append {ℓ κ} :
    {A : Type ℓ} (P : A → Type κ) (xs : List A) (x : A) → All P xs → P x → All P (xs ++ x ∷ [])
All-append P [] x h p = (p, tt)
All-append P (y ∷ xs) x (q, h) p = (q, All-append P xs x h p)
