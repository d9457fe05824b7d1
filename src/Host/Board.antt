-- ===== src/Host/Board.antt =====
-- What a `FrontierExecutionHost` of src/prompt_performance_engine/frontier_host.py looks like from
-- outside: each slot is free, has an attempt with the runner, or is finished. The states and steps
-- of the host implement this board and its moves.
use prompt_performance_engin.Budget.Amounts.{Error as LedgerError}
use prompt_performance_engin.Prelude.{
  ◌≤◌, String, ◌≡◌, if◌then◌else◌, some, str_eq, Bool, arith, leb, ◌+◌, ap, eq_iff, refl, ◌∙◌, List,
  count, map, ◌++◌, ◌∷◌, [], subst, eq_refl, fun_ext, sym,
}
use prompt_performance_engin.Host.Attempt.{
  after_claim, after_reserve, begin, claim_slot, Dispatched, Request, dispatch, release_slot,
  Digests, Error, Arguments, prepare,
}
use prompt_performance_engin.Host.Plan.{Frozen, Slot, Component, HostState, Report}
use prompt_performance_engin.Host.Steps.{
  System, find_flight, land, attempt_of, begun, Reach, opening, Step, start, arrive, next,
}
use prompt_performance_engin.Prelude.Result.{Result, err, attempt_induction, ok}
use prompt_performance_engin.Budget.Ledger.{Reservation, Ledger}
use prompt_performance_engin.Host.Invariant.{
  reported_ids, reservation_of, IsConsistent, IsPlanned, find_flight-All, IsReady,
}
use prompt_performance_engin.Budget.Amounts.{Amounts}
use prompt_performance_engin.Budget.Soundness.{count-map-append}
use prompt_performance_engin.Host.Output.{finish-IsBooked}
use prompt_performance_engin.Host.Laws.{Reach-IsConsistent}

pub data Phase : Type 0 where
  free running finished : Phase

abbrev pub Board : Type 0
Board = String → Phase

unfoldable pub set : String → Phase → Board → Board
set id p b = λ j. if str_eq id j then p else b j

-- A board changes one slot at a time, and only from free to running or from running to finished.
pub data Move (b c : Board) : Type 0 where
  stay : c ≡ b → Move b c
  launch : (id : String) → b id ≡ free → c ≡ set id running b → Move b c
  complete : (id : String) → b id ≡ running → c ≡ set id finished b → Move b c

abbrev pub flight_ids : List Dispatched → List String
flight_ids = map (λ (d : Dispatched). attempt_of d)

unfoldable pub board_of : List Dispatched → List Report → Board
board_of ds rs = λ id.
    if leb 1 (count id (reported_ids rs))
    then finished
    else if leb 1 (count id (flight_ids ds))
    then running
    else free

abbrev pub board : System → Board
board s = board_of s.in_flight s.host.reports

claim_slot-reports :
    (frozen : Frozen) (slot : Slot) (s : HostState)
    → (claim_slot frozen slot s).1.reports ≡ s.reports
unfolding claim_slot
claim_slot-reports frozen slot s = ground arith

after_reserve-reports :
    (request : Request) (c : Component) (s : HostState)
    (o : Result LedgerError Reservation × Ledger)
    → (after_reserve request c s o).1.reports ≡ s.reports
unfolding after_reserve release_slot
after_reserve-reports request c s (ok r, l) = refl
after_reserve-reports request c s (err e, l) = refl

after_claim-reports :
    (request : Request) (token : String) (o : Result Error Component × HostState)
    → (after_claim request token o).1.reports ≡ o.1.reports
unfolding after_claim
after_claim-reports request token (err e, t) = refl
after_claim-reports request token (ok c, t) = after_reserve-reports request c t _

-- `begin` reports nothing.
begin-reports :
    (frozen : Frozen) (digests : Digests) (is_expired clock_works : Bool) (token : String)
    (a : Arguments) (s : HostState)
    → (begin frozen digests is_expired clock_works token a s).1.reports ≡ s.reports
unfolding begin dispatch
begin-reports frozen digests is_expired clock_works token a s =
    attempt_induction (λ (o : Result Error Dispatched × HostState). o.1.reports ≡ s.reports)
      (prepare frozen digests is_expired clock_works a) (dispatch frozen token) s (λ e _. refl)
      (λ request _.
        after_claim-reports request token (claim_slot frozen request.slot s)
        ∙ claim_slot-reports frozen request.slot s)

active-flights :
    (ds : List Dispatched)
    → map (λ (r : Reservation). r.reservation_id) (map reservation_of ds) ≡ flight_ids ds
active-flights [] = refl
active-flights (d ∷ ds) = ap (λ xs. attempt_of d ∷ xs) (active-flights ds)

-- No slot is both in flight and reported, nor twice in either.
apart :
    (frozen : Frozen) (s : System) (id : String)
    → IsConsistent frozen s
    → count id (flight_ids s.in_flight) + count id (reported_ids s.host.reports) ≤ 1
apart frozen s id v = omega (
  arith,
  v.places id,
  v.once id,
  ap (λ xs. count id xs)
      (ap (map (λ (r : Reservation). r.reservation_id)) v.mirror ∙ active-flights s.in_flight),
)

count-land :
    (id : String) (ds : List Dispatched) (d : Dispatched) (j : String)
    → find_flight id ds ≡ some d
    → count j (flight_ids ds) ≡ count j (flight_ids (land id ds)) + count j (id ∷ [])
unfolding find_flight land
count-land id [] d j h = cc
count-land id (e ∷ ds) d j h = ground (arith, count-land id ds d j, eq_iff (attempt_of e) id)

launched :
    (ds : List Dispatched) (rs : List Report) (d : Dispatched)
    → count (attempt_of d) (flight_ids (ds ++ d ∷ [])) + count (attempt_of d) (reported_ids rs) ≤ 1
    → Move (board_of ds rs) (board_of (ds ++ d ∷ []) rs)
unfolding board_of set
launched ds rs d h =
    let more = count-map-append attempt_of ds d in
    launch (attempt_of d) (ground (arith, h, more (attempt_of d), eq_refl (attempt_of d)))
      (fun_ext (λ j. ground (arith, h, more j, eq_iff (attempt_of d) j)))

landed :
    (id : String) (ds : List Dispatched) (rs : List Report) (d : Dispatched) (r : Report)
    → find_flight id ds ≡ some d
    → r.attempt_id ≡ id
    → count id (flight_ids ds) + count id (reported_ids rs) ≤ 1
    → Move (board_of ds rs) (board_of (land id ds) (rs ++ r ∷ []))
unfolding board_of set
landed id ds rs d r found named h =
    let less = λ (j : String). count-land id ds d j found in
    let more = λ (j : String).
      count-map-append (λ (r : Report). r.attempt_id) rs r j
      ∙ ap (λ k. count j (reported_ids rs) + count j (k ∷ [])) named in
    complete id (ground (arith, h, less id, eq_refl id))
      (fun_ext (λ j. ground (arith, h, less j, more j, eq_iff id j)))

begun-Move :
    (frozen : Frozen) (ds : List Dispatched) (s : HostState)
    (o : Result Error Dispatched × HostState)
    → o.1.reports ≡ s.reports
    → IsConsistent frozen (begun ds o)
    → Move (board_of ds s.reports) (board (begun ds o))
begun-Move frozen ds s (err e, t) same v = stay (ap (board_of ds) same)
begun-Move frozen ds s (ok d, t) same v =
    subst (λ rs. Move (board_of ds rs) (board_of (ds ++ d ∷ []) t.reports)) same
      (launched ds t.reports d (apart frozen (begun ds (ok d, t)) (attempt_of d) v))

-- In every execution, each step of the host is at most one move of the board: it changes the phase
-- of at most one slot, and only from free to running or from running to finished. So a slot that
-- has finished never runs again.
pub Step-Move :
    (frozen : Frozen) (digests : Digests) (ceilings : Amounts) (s t : System)
    → IsPlanned frozen
    → Reach frozen digests (opening ceilings) s
    → Step frozen digests s t
    → Move (board s) (board t)
Step-Move frozen digests ceilings s t planned path step =
    let v = Reach-IsConsistent frozen digests ceilings s planned path in
    let w = Reach-IsConsistent frozen digests ceilings t planned (next path step) in go v w step
  where
    go :
        IsConsistent frozen s
        → IsConsistent frozen t
        → Step frozen digests s t
        → Move (board s) (board t)
    go v w (start is_expired clock_works token a ascii e) =
        subst (λ u. Move (board s) (board u)) (sym e)
          (begun-Move frozen s.in_flight s.host
            (begin frozen digests is_expired clock_works token a s.host)
            (begin-reports frozen digests is_expired clock_works token a s.host)
            (subst (IsConsistent frozen) e w))
    go v w (arrive id d outcome elapsed verify found e) =
        let (r, reports, named, spent, all) =
          finish-IsBooked frozen digests ceilings s verify id d outcome elapsed planned path
            found in
        let held = (find_flight-All IsReady id s.in_flight d v.ready found).1 in
        subst (λ u. Move (board s) (board u)) (sym e)
          (subst (λ rs. Move (board s) (board_of (land id s.in_flight) rs)) (sym reports)
            (landed id s.in_flight s.host.reports d r found (named ∙ held) (apart frozen s id v)))
