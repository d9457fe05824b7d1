-- ===== src/Host/LedgerCalls.antt =====
-- The calls that the host makes of its ledger: their arguments pass the ledger's own checks.
use prompt_performance_engin.Prelude.{
  ℕ, ◌≤◌, ◌≡◌, refl, true, String, contains, Option, some, arith, fun_ext, eq_refl, if◌then◌else◌,
  Bool-cases, leb, ◌==◌, ap, inl, inr,
}
use prompt_performance_engin.Prelude.Value.{Value}
use prompt_performance_engin.Prelude.Text.{is_ascii}
use prompt_performance_engin.Prelude.Result.{ok, err}
use prompt_performance_engin.Budget.Amounts.{
  Axis, Amounts, amounts, tabulate, calls, input_tokens, output_tokens, money_microunits,
  wall_clock_ms, max_budget_value, bad_reservation_id,
}
use prompt_performance_engin.Budget.Ledger.{
  Ledger, Reservation, reserve, reserve_locked, reserve_arguments, is_identifier, settle,
  settle_claimed, settle_arguments, checked_receipt, claim, check_token, find, terminal_statuses,
}
use prompt_performance_engin.Host.Plan.{amounts_value}
use prompt_performance_engin.Host.Finish.{receipt_value}
use prompt_performance_engin.Host.Invariant.{IsSized}

tabulate-eta :
    (a : Amounts)
    → tabulate (a calls) (a input_tokens) (a output_tokens) (a money_microunits) (a wall_clock_ms)
      ≡ a
tabulate-eta a = fun_ext (same a)
  where
    same :
        (a : Amounts) (x : Axis)
        → tabulate
            (a calls)
            (a input_tokens)
            (a output_tokens)
            (a money_microunits)
            (a wall_clock_ms)
            x
          ≡ a x
    same a calls = refl
    same a input_tokens = refl
    same a output_tokens = refl
    same a money_microunits = refl
    same a wall_clock_ms = refl

small_enough : (n : ℕ) → n ≤ max_budget_value → leb n max_budget_value ≡ true
small_enough n h = ground arith

pub amounts-amounts_value : (a : Amounts) → IsSized a → amounts true (amounts_value a) ≡ ok a
unfolding amounts amounts_value
amounts-amounts_value a v =
    let f = λ (x : Axis). small_enough (a x) (v.small x) in
    let one : (a calls == 1) ≡ true = ground (arith, v.one) in
    rw (f calls, f input_tokens, f output_tokens, f money_microunits, f wall_clock_ms, one)
      (ap (λ x. ok x) (tabulate-eta a))

pub reserve-sized :
    (id : String) (m : Amounts) (token : String) (l : Ledger)
    → IsSized m
    → reserve (Value.str id) (amounts_value m) token l
      ≡ (if is_identifier id then reserve_locked id m token l else (err bad_reservation_id, l))
unfolding reserve reserve_arguments
reserve-sized id m token l v = elim (Bool-cases (is_identifier id)) [
  | inl e ↦ rw (e, amounts-amounts_value m v) refl
  | inr e ↦ rw e refl
]

pub settle-sized :
    (id : String) (charged : Amounts) (status : String) (receipt : Option String) (l : Ledger)
    (r : Reservation)
    → IsSized charged
    → contains status terminal_statuses ≡ true
    → checked_receipt (receipt_value receipt) ≡ ok receipt
    → find id l.reservations ≡ some r
    → is_ascii r.reservation_token ≡ true
    → settle id
        (amounts_value charged)
        status
        (receipt_value receipt)
        (Value.str r.reservation_token)
        l
      ≡ settle_claimed id r.reserved charged status receipt l
unfolding settle settle_arguments claim check_token
settle-sized id charged status receipt l r v known digest found ascii =
    rw
      (
        amounts-amounts_value charged v,
        known,
        digest,
        found,
        claim,
        ascii,
        eq_refl r.reservation_token,
      )
      refl
