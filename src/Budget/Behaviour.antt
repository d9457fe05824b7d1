-- ===== src/Budget/Behaviour.antt =====
-- What the methods of the ledger accept and refuse, and what later calls cannot undo.
use prompt_performance_engin.Prelude.{
  ◌≡◌, Bool, String, false, true, ◌↔◌, contains, ◌+◌, ◌≤◌, Option, if_induction, is_empty, ◌⊎◌,
  arith, inr, inl, refl,
}
use prompt_performance_engin.Prelude.Result.{Result, ok, err, attempt_induction}
use prompt_performance_engin.Prelude.Value.{Value}
use prompt_performance_engin.Budget.Amounts.{
  Axis, Amounts, Error, reservation_exceeds, settlement_breached,
}
use prompt_performance_engin.Budget.Ledger.{
  Ledger, reserve, settle, settle_claimed, reserve_arguments, active, reserve_locked, Reservation,
  cancel_before_call, exceeded_by, is_over, release, settlement, claim, settle_arguments,
}
use prompt_performance_engin.Budget.Invariant.{axes_over-empty, axes_over-empty_of_le}

reserve_locked_accepts :
    (name : String) (reserved : Amounts) (token : String) (l : Ledger) (r : Reservation)
    → (reserve_locked name reserved token l).0 ≡ ok r
    → (contains name l.used_ids ≡ false)
      × (l.breached ≡ false)
      × (is_empty (exceeded_by reserved l) ≡ true)
unfolding reserve_locked
reserve_locked_accepts name reserved token l r h = ground arith

reserve_locked_fits :
    (name : String) (reserved : Amounts) (token : String) (l : Ledger)
    → contains name l.used_ids ≡ false
    → l.breached ≡ false
    → is_empty (exceeded_by reserved l) ≡ true
    → (reserve_locked name reserved token l).0
      ≡ ok (record { reservation_id = name; reserved = reserved; reservation_token = token })
unfolding reserve_locked
reserve_locked_fits name reserved token l fresh sound fits = ground arith

-- With arguments that pass the checks, a reservation is accepted exactly when its id was never used,
-- the ledger is not breached, and on every axis what is spent, what is reserved and what is asked
-- for fit under the ceiling together.
pub reserve_iff :
    (id maximums : Value) (name token : String) (reserved : Amounts) (l : Ledger)
    → reserve_arguments id maximums ≡ ok (name, reserved)
    → ((reserve id maximums token l).0
        ≡ ok (record { reservation_id = name; reserved = reserved; reservation_token = token }))
      ↔ ((contains name l.used_ids ≡ false)
          × (l.breached ≡ false)
          × ((a : Axis) → l.consumed a + active l.reservations a + reserved a ≤ l.ceilings a))
unfolding reserve exceeded_by
reserve_iff id maximums name token reserved l checked = rw checked (
  (λ h.
      let (fresh, sound, fits) = reserve_locked_accepts name reserved token l _ h in
      (fresh, sound, axes_over-empty _ l.ceilings fits)),
  (λ h. reserve_locked_fits name reserved token l h.0 h.1 (
      axes_over-empty_of_le (λ a. l.consumed a + active l.reservations a + reserved a) l.ceilings
        h.2)),
)

-- `e` says that the budget is breached.
unfoldable pub is_breach : Error → Bool
is_breach (reservation_exceeds _) = true
is_breach (settlement_breached _) = true
is_breach _ = false

-- A method that raises anything but a breach has changed nothing.
abbrev pub KeptUnlessBreach : {A : Type 0} → Ledger → Result Error A × Ledger → Type 0
KeptUnlessBreach l (ok a, after) = Unit
KeptUnlessBreach l (err e, after) = (is_breach e ≡ true) ⊎ (after ≡ l)

settle_claimed-KeptUnlessBreach :
    (id : String) (reserved charged : Amounts) (status : String) (receipt : Option String)
    (l : Ledger)
    → KeptUnlessBreach l (settle_claimed id reserved charged status receipt l)
unfolding settle_claimed is_breach
settle_claimed-KeptUnlessBreach id reserved charged status receipt l =
    if_induction (KeptUnlessBreach l) (is_over (settlement id reserved charged status receipt l))
      (λ over. inl refl) (λ fine. tt)

reserve_locked-KeptUnlessBreach :
    (id : String) (reserved : Amounts) (token : String) (l : Ledger)
    → KeptUnlessBreach l (reserve_locked id reserved token l)
unfolding reserve_locked is_breach
reserve_locked-KeptUnlessBreach id reserved token l =
    if_induction (KeptUnlessBreach l) (contains id l.used_ids) (λ used. inr refl)
      λ fresh.
        if_induction (KeptUnlessBreach l) l.breached (λ over. inr refl)
          λ sound.
            if_induction (KeptUnlessBreach l) (is_empty (exceeded_by reserved l)) (λ fits. tt)
              (λ exceeds. inl refl)

-- A call of `reserve`, `cancel_before_call` or `settle` that raises anything but a breach of the
-- budget (a bad argument, an id that is used or not active, a wrong token, a ledger that is breached
-- already) has changed nothing.
pub refusals_change_nothing :
    (id : String) (value actuals receipt token : Value) (status drawn : String) (l : Ledger)
    → KeptUnlessBreach l (reserve value actuals drawn l)
      × KeptUnlessBreach l (cancel_before_call id token l)
      × KeptUnlessBreach l (settle id actuals status receipt token l)
unfolding reserve cancel_before_call release settle
refusals_change_nothing id value actuals receipt token status drawn l = (
  attempt_induction (KeptUnlessBreach l) (reserve_arguments value actuals) _ l (λ e _. inr refl)
      (λ arguments _. reserve_locked-KeptUnlessBreach arguments.0 arguments.1 drawn l),
  attempt_induction (KeptUnlessBreach l) (claim id token l) _ l (λ e _. inr refl) (λ r _. tt),
  attempt_induction (KeptUnlessBreach l) (settle_arguments actuals status receipt) _ l
      (λ e _. inr refl)
      λ arguments _.
        attempt_induction (KeptUnlessBreach l) (claim id token l) _ l (λ e _. inr refl)
          (λ r _. settle_claimed-KeptUnlessBreach id r.reserved arguments.0 status arguments.1 l),
)
