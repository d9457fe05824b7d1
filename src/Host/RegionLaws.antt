-- ===== src/Host/RegionLaws.antt =====
-- What each lock region of a `FrontierExecutionHost` does to an orderly host.
use prompt_performance_engin.Prelude.{
  ℕ, ◌+◌, ◌≤◌, ◌≡◌, ap, String, eq_iff, count, none, List, [], ◌∷◌, ◌++◌, All, arith, refl,
}
use prompt_performance_engin.Budget.Ledger.{Ledger}
use prompt_performance_engin.Budget.Invariant.{IsSound}
use prompt_performance_engin.Host.Plan.{Frozen, HostState, Slot, Report}
use prompt_performance_engin.Host.Attempt.{remove, Dispatched, release_slot, Request}
use prompt_performance_engin.Host.Finish.{add_receipt}
use prompt_performance_engin.Host.Invariant.{IsAuthorized, All-append}
use prompt_performance_engin.Host.Regions.{Phase, refused, running, receipted, settled}
use prompt_performance_engin.Budget.Soundness.{count-map-append}
use prompt_performance_engin.Host.Assess.{Assessment}
use prompt_performance_engin.Host.AssessLaws.{IsAssessed}
use prompt_performance_engin.Host.FinishLaws.{
  count-receipts-append, count-add_receipt, unique-add_receipt, success_receipted,
}
use prompt_performance_engin.Host.Orderly.{
  Holds, IsOrderly, attempt_in, attempts_in, components_in, slot_of, tally, receipt_in, receipts_in,
}

tally-append :
    (f : Phase → List String) (id : String) (xs ys : List Phase)
    → tally f id (xs ++ ys) ≡ tally f id xs + tally f id ys
tally-append f id [] ys = omega arith
tally-append f id (x ∷ xs) ys = omega (arith, tally-append f id xs ys)

All-join : (P : Phase → Type 0) (xs ys : List Phase) → All P xs → All P ys → All P (xs ++ ys)
All-join P [] ys h k = k
All-join P (x ∷ xs) ys h k = (h.0, All-join P xs ys h.1 k)

-- In the place of one thread there may be others.
pub All-replace :
    (P : Phase → Type 0) (xs : List Phase) (p : Phase) (ys : List Phase)
    → All P (xs ++ p ∷ ys)
    → P p × ((qs : List Phase) → All P qs → All P (xs ++ (qs ++ ys)))
All-replace P [] p ys h = (h.0, λ qs k. All-join P qs ys k h.1)
All-replace P (x ∷ xs) p ys h =
    let (first, rest) = All-replace P xs p ys h.1 in (first, λ qs k. (h.0, rest qs k))

count-remove :
    (x id : String) (used : List String)
    → 1 ≤ count x used
    → count id (remove x used) + count id (x ∷ []) ≡ count id used
unfolding remove
count-remove x id [] h = omega (arith, h)
count-remove x id (y ∷ used) h = ground (arith, count-remove x id used, eq_iff y x)

none_counted : (x : String) → count x (add_receipt none []) ≡ 0
unfolding add_receipt
none_counted x = refl

module _ (frozen : Frozen) (before after : List Phase) where
  abbrev pub With : List Phase → HostState → Type 0
  With ps s = IsOrderly frozen (record { host = s; threads = before ++ (ps ++ after) })

  module _ (s : HostState) (p : Phase) (v : With (p ∷ []) s) where
    -- A step of the ledger alone, after which the thread has the same slot and receipt.
    pub ledger_step :
        (q : Phase) (l : Ledger)
        → IsSound l
        → attempt_in q ≡ attempt_in p
        → slot_of q ≡ slot_of p
        → receipt_in q ≡ receipt_in p
        → Holds q
        → With (q ∷ []) (record s { ledger = l })
    ledger_step q l sound named slotted receipt holds = record {
      sound = sound;
      places = λ id. omega (
        arith,
        v.places id,
        tally-append attempts_in id before (p ∷ after),
        tally-append attempts_in id before (q ∷ after),
        ap (λ n. count id (n ∷ [])) named,
      );
      once = v.once;
      allocated = λ id. omega (
        arith,
        v.allocated id,
        tally-append components_in id before (p ∷ after),
        tally-append components_in id before (q ∷ after),
        ap (λ (x : Slot). count id (x.component_id ∷ [])) slotted,
      );
      capacity = v.capacity;
      receipts = λ x. omega (
        arith,
        v.receipts x,
        tally-append receipts_in x before (p ∷ after),
        tally-append receipts_in x before (q ∷ after),
        ap (λ o. count x (add_receipt o [])) receipt,
      );
      unique = v.unique;
      holds = (All-replace Holds before p after v.holds).1 (q ∷ []) (holds, tt);
      authorized = v.authorized;
    }

  -- A slot that is given back.
  pub release_step :
      (s : HostState) (request : Request)
      → With (refused request ∷ []) s
      → With [] (release_slot request.slot s)
  unfolding release_slot
  release_step s request v =
      let x = request.slot.slot_id in
      let split_ = λ (f : Phase → List String) (id : String).
        tally-append f id before (refused request ∷ after) in
      let held : 1 ≤ count x s.used_slots =
        ground (arith, v.places x, split_ attempts_in x, eq_iff x x) in
      record {
        sound = v.sound;
        places = λ id. omega (
          arith,
          v.places id,
          split_ attempts_in id,
          tally-append attempts_in id before after,
          count-remove x id s.used_slots held,
        );
        once = λ id. omega (arith, v.once id, count-remove x id s.used_slots held);
        allocated = λ id. ground (
          arith,
          v.allocated id,
          split_ components_in id,
          tally-append components_in id before after,
        );
        capacity = λ id c h. ground (arith, v.capacity id c h);
        receipts = λ r. omega (
          arith,
          v.receipts r,
          split_ receipts_in r,
          tally-append receipts_in r before after,
          none_counted r,
        );
        unique = v.unique;
        holds = (All-replace Holds before (refused request) after v.holds).1 [] tt;
        authorized = v.authorized;
      }

  -- A receipt that is new is added.
  pub receipt_step :
      (s : HostState) (d : Dispatched) (a : Assessment) (observed : ℕ)
      → IsAssessed s.receipts a
      → With (running d ∷ []) s
      → With
          (receipted d a observed ∷ [])
          (record s { receipts = add_receipt a.receipt s.receipts })
  receipt_step s d a observed assessed v =
      let q = receipted d a observed in
      record {
        sound = v.sound;
        places = λ id. omega (
          arith,
          v.places id,
          tally-append attempts_in id before (running d ∷ after),
          tally-append attempts_in id before (q ∷ after),
        );
        once = v.once;
        allocated = λ id. omega (
          arith,
          v.allocated id,
          tally-append components_in id before (running d ∷ after),
          tally-append components_in id before (q ∷ after),
        );
        capacity = v.capacity;
        receipts = λ x. omega (
          arith,
          v.receipts x,
          tally-append receipts_in x before (running d ∷ after),
          tally-append receipts_in x before (q ∷ after),
          count-add_receipt a.receipt s.receipts x,
          none_counted x,
        );
        unique = λ x. unique-add_receipt s.receipts a a.receipt x assessed.backed (v.unique x);
        holds =
            (All-replace Holds before (running d) after v.holds).1 (q ∷ [])
              (success_receipted s.receipts a a.receipt assessed.backed, tt);
        authorized = v.authorized;
      }

  -- A report is recorded, and its thread leaves.
  pub report_step :
      (s : HostState) (r : Report)
      → With (settled r ∷ []) s
      → With [] (record s { reports = s.reports ++ r ∷ [] })
  report_step s r v =
      let split_ =
        λ (f : Phase → List String) (id : String). tally-append f id before (settled r ∷ after) in
      let (authorized, others) = All-replace Holds before (settled r) after v.holds in
      record {
        sound = v.sound;
        places = λ id. omega (
          arith,
          v.places id,
          split_ attempts_in id,
          tally-append attempts_in id before after,
          count-map-append (λ (r : Report). r.attempt_id) s.reports r id,
        );
        once = v.once;
        allocated = λ id. omega (
          arith,
          v.allocated id,
          split_ components_in id,
          tally-append components_in id before after,
          count-map-append (λ (r : Report). r.slot.component_id) s.reports r id,
        );
        capacity = v.capacity;
        receipts = λ x. omega (
          arith,
          v.receipts x,
          split_ receipts_in x,
          tally-append receipts_in x before after,
          count-receipts-append s.reports r x,
        );
        unique = v.unique;
        holds = others [] tt;
        authorized = All-append IsAuthorized s.reports r v.authorized authorized;
      }
