-- ===== src/Budget/Amounts.antt =====
-- `_strict_amount`, `_amounts` and `_sum_amounts` of src/prompt_performance_engine/frontier_budget.py.
-- A dict with exactly the five budget axes as keys is a function of the axis.
use prompt_performance_engin.Prelude.{
  ℕ, ◌+◌, Bool, false, ◌&&◌, not, List, [], ◌∷◌, none, some, String, select, str_eq, ltb, leb, ◌==◌,
  if◌then◌else◌,
}
use prompt_performance_engin.Prelude.Result.{Result, ok, err, ◌>>=◌, ◌>>◌, ensure}
use prompt_performance_engin.Prelude.Value.{Value, ℤ, obj, int, keys, get}
use prompt_performance_engin.Prelude.Dict.{same_set}

pub data Axis : Type 0 where
  calls input_tokens output_tokens money_microunits wall_clock_ms : Axis

abbrev pub axis_name : Axis → String
axis_name calls = "calls"
axis_name input_tokens = "input_tokens"
axis_name output_tokens = "output_tokens"
axis_name money_microunits = "money_microunits"
axis_name wall_clock_ms = "wall_clock_ms"

-- `BUDGET_AXES`
abbrev pub budget_axes : List Axis
budget_axes = calls ∷ input_tokens ∷ output_tokens ∷ money_microunits ∷ wall_clock_ms ∷ []

abbrev pub budget_axis_names : List String
budget_axis_names =
    "calls" ∷ "input_tokens" ∷ "output_tokens" ∷ "money_microunits" ∷ "wall_clock_ms" ∷ []

-- The same axes in the order of their names.
abbrev pub axes_by_name : List Axis
axes_by_name = calls ∷ input_tokens ∷ money_microunits ∷ output_tokens ∷ wall_clock_ms ∷ []

abbrev pub axis_eq : Axis → Axis → Bool
axis_eq a b = str_eq (axis_name a) (axis_name b)

abbrev pub max_budget_value : ℕ
max_budget_value = 9_007_199_254_740_991

abbrev pub Amounts : Type 0
Amounts = Axis → ℕ

-- What the methods of the ledger raise.
pub data Error : Type 0 where
  amount_not_integer amount_out_of_range bad_axes calls_not_one zero_call_ceiling : Error
  bad_reservation_id reused_reservation_id already_breached : Error
  reservation_exceeds : List Axis → Error
  not_active bad_token token_not_ascii bad_status bad_receipt : Error
  settlement_breached : List Axis → Error

-- `isinstance(value, bool)` comes first, since a Python `bool` is an `int`.
unfoldable pub strict_amount : Value → Result Error ℕ
strict_amount (int (ℤ.pos n)) = if leb n max_budget_value then ok n else err amount_out_of_range
strict_amount (int (ℤ.negsuc n)) = err amount_out_of_range
strict_amount _ = err amount_not_integer

-- `value[axis]`; the keys have been compared before, so the axis is there.
unfoldable pub amount_at : Axis → Value → Result Error ℕ
unfolding strict_amount
amount_at axis (obj fs) = elim (get (axis_name axis) fs) [
  | none ↦ err bad_axes
  | some v ↦ strict_amount v
]
amount_at axis _ = err bad_axes

abbrev pub tabulate : ℕ → ℕ → ℕ → ℕ → ℕ → Amounts
tabulate c i o m w calls = c
tabulate c i o m w input_tokens = i
tabulate c i o m w output_tokens = o
tabulate c i o m w money_microunits = m
tabulate c i o m w wall_clock_ms = w

-- `isinstance(value, Mapping) and set(value) == set(BUDGET_AXES)`
unfoldable pub has_budget_axes : Value → Bool
has_budget_axes (obj fs) = same_set (keys fs) budget_axis_names
has_budget_axes _ = false

unfoldable pub amounts : Bool → Value → Result Error Amounts
unfolding amount_at has_budget_axes
amounts one_call value = do
  ensure (has_budget_axes value) bad_axes
  c ← amount_at calls value
  i ← amount_at input_tokens value
  o ← amount_at output_tokens value
  m ← amount_at money_microunits value
  w ← amount_at wall_clock_ms value
  ensure (not (one_call && not (c == 1))) calls_not_one
  ok (tabulate c i o m w)

-- `_sum_amounts`
unfoldable pub sum_amounts : List Amounts → Amounts
sum_amounts [] axis = 0
sum_amounts (a ∷ as_) axis = a axis + sum_amounts as_ axis

-- `[axis for axis in BUDGET_AXES if left[axis] > right[axis]]`
unfoldable pub axes_over : Amounts → Amounts → List Axis
axes_over left right = select (λ a. ltb (right a) (left a)) budget_axes
