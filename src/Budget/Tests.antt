-- ===== src/Budget/Tests.antt =====
-- The theorems on the budget ledger at concrete ledgers, and runs of the methods.
use prompt_performance_engin.Prelude.{
  ℕ, ◌≡◌, refl, List, [], ◌∷◌, String, ◌++◌, count, false, true, ◌≢◌, ◌+◌, ◌↔◌, arith, contains,
  map, ◌≤◌,
}
use prompt_performance_engin.Prelude.Value.{Value, ℤ, obj, int, field, end}
use prompt_performance_engin.Budget.Amounts.{
  Amounts, amounts, tabulate, Axis, not_active, sum_amounts,
}
use prompt_performance_engin.Budget.Calls.{Call, reserving, run, settling}
use prompt_performance_engin.Budget.Invariant.{IsSound, settled_ids, active_ids}
use prompt_performance_engin.Budget.Ledger.{
  Ledger, create, initial, claim, methods, reserve, cancel_before_call, reserve_arguments,
  checked_id, settle, active,
}
use prompt_performance_engin.Prelude.Result.{ok, err}
use prompt_performance_engin.Budget.Soundness.{run-IsSound, initial-IsSound}
use prompt_performance_engin.Budget.Behaviour.{
  KeptUnlessBreach, refusals_change_nothing, reserve_iff,
}
use prompt_performance_engin.Budget.Snapshot.{
  Snapshot, snapshot, ActiveReservation, reserved_amounts, snapshot_balances,
}
use prompt_performance_engin.Budget.Permanence.{breach_is_final, ended_stays_ended}

abbrev demand : ℕ → ℕ → Value
demand n tokens = obj (
    field "calls" (int (ℤ.pos n)) (
      field "input_tokens" (int (ℤ.pos tokens)) (
        field "output_tokens" (int (ℤ.pos 5))
          (field "money_microunits" (int (ℤ.pos 7)) (field "wall_clock_ms" (int (ℤ.pos 9)) end)))))

abbrev limits : Amounts
limits = tabulate 2 100 100 100 100

abbrev fresh : Ledger
fresh = initial limits

abbrev opening : List Call
opening = reserving (Value.str "run-1") (demand 1 40) "aa" ∷ []

abbrev closing : List Call
closing = settling "run-1" (demand 1 30) "success" Value.null (Value.str "aa") ∷ []

create_fresh : create (demand 2 100) ≡ ok (initial (tabulate 2 100 5 7 9))
unfolding create amounts
create_fresh = refl

fresh-IsSound : IsSound fresh
fresh-IsSound = initial-IsSound limits

run-IsSound_example : IsSound (run (opening ++ closing) fresh)
run-IsSound_example = run-IsSound (opening ++ closing) fresh fresh-IsSound

abbrev opened : Ledger
opened = run opening fresh

abbrev settled : Ledger
settled = run closing opened

reserve_iff_example :
    ((reserve (Value.str "run-1") (demand 1 40) "aa" fresh).0
      ≡ ok (record {
        reservation_id = "run-1";
        reserved = tabulate 1 40 5 7 9;
        reservation_token = "aa";
      }))
    ↔ ((contains "run-1" fresh.used_ids ≡ false)
        × (fresh.breached ≡ false)
        × ((a : Axis)
            → fresh.consumed a + active fresh.reservations a + tabulate 1 40 5 7 9 a
              ≤ fresh.ceilings a))
unfolding methods reserve_arguments amounts checked_id
reserve_iff_example =
    reserve_iff (Value.str "run-1") (demand 1 40) "run-1" "aa" (tabulate 1 40 5 7 9) fresh refl

refusals_change_nothing_example :
    KeptUnlessBreach fresh (reserve Value.null (demand 1 40) "aa" fresh)
    × KeptUnlessBreach fresh (cancel_before_call "run-1" (Value.str "bb") fresh)
    × KeptUnlessBreach fresh
        (settle "run-1" (demand 1 40) "success" Value.null (Value.str "bb") fresh)
refusals_change_nothing_example =
    refusals_change_nothing "run-1" Value.null (demand 1 40) Value.null (Value.str "bb") "success"
      "aa" fresh

settled-IsSound : IsSound settled
settled-IsSound = run-IsSound closing opened (run-IsSound opening fresh fresh-IsSound)

run_settles : count "run-1" (settled_ids settled) ≡ 1
unfolding run methods initial
run_settles = refl

ended_stays_ended_example : claim "run-1" (Value.str "aa") (run opening settled) ≡ err not_active
ended_stays_ended_example =
    ended_stays_ended "run-1" (Value.str "aa") opening settled settled-IsSound
      (omega (arith, run_settles))

abbrev overdrawn : Ledger
overdrawn = run (reserving (Value.str "big") (demand 1 400) "cc" ∷ []) fresh

overdrawn_breached : overdrawn.breached ≡ true
unfolding run methods initial
overdrawn_breached = refl

breach_is_final_example :
    (reserve (Value.str "run-1") (demand 1 40) "aa" (run closing overdrawn)).0
    ≢ ok (record {
      reservation_id = "run-1";
      reserved = tabulate 1 40 5 7 9;
      reservation_token = "aa";
    })
breach_is_final_example =
    breach_is_final closing (Value.str "run-1") (demand 1 40) "aa" overdrawn
      (record {
        reservation_id = "run-1";
        reserved = tabulate 1 40 5 7 9;
        reservation_token = "aa";
      })
      overdrawn_breached

abbrev digest_of : Snapshot → String
digest_of s = "0"

snapshot_balances_example :
    let s = snapshot digest_of opened in
    (s.breached ≡ false
      → (a : Axis) → s.consumed a + s.active_reserved a + s.remaining_unreserved a ≡ s.ceilings a)
    × ((id : String)
        → count id (map (λ (r : ActiveReservation). r.reservation_id) s.active_reservations)
          ≡ count id (active_ids opened))
    × ((a : Axis) → sum_amounts (reserved_amounts s.active_reservations) a ≡ s.active_reserved a)
snapshot_balances_example =
    snapshot_balances digest_of opened (run-IsSound opening fresh fresh-IsSound)
