-- ===== src/Statistics/Floats.antt =====
-- The finite floats of Python as src/prompt_performance_engine/frontier_statistics.py uses them, and
-- `_finite_number`.
use prompt_performance_engin.Prelude.{Bool, true, Option, none, some, ◌≡◌, ◌⊎◌, if◌then◌else◌, ◌&&◌}
use prompt_performance_engin.Prelude.Value.{Value}
use prompt_performance_engin.Prelude.Result.{Result, ok, err}

-- The floats, given to the model: `is_le` is `<=`, and `read` is `float(value)` of an `int` or `float`
-- that is no `bool`, none where that fails or is not finite.
pub record Floats : Type 1 where
  pub Number : Type 0
  pub is_le : Number → Number → Bool
  pub read : Value → Option Number
  pub nought : Number
  pub unity : Number

-- What the order of the finite floats is known for.
pub record IsOrdered (f : Floats) : Type 0 where
  pub total : (a b : f.Number) → (f.is_le a b ≡ true) ⊎ (f.is_le b a ≡ true)
  pub transitive : (a b c : f.Number) → f.is_le a b ≡ true → f.is_le b c ≡ true → f.is_le a c ≡ true

-- What the functions of the module raise.
pub data Error : Type 0 where
  no_candidates too_many_candidates bad_candidate_id bad_metrics bad_number : Error
  no_p_values too_many_p_values bad_probability bad_alpha : Error
  no_cases too_many_cases bad_case_id bad_observations too_many_observations : Error

-- `_finite_number` with a minimum of 0, and with a maximum of 1 too.
unfoldable pub from_nought : (f : Floats) → Value → Result Error f.Number
from_nought f v = elim (f.read v) [
  | none ↦ err bad_number
  | some x ↦ if f.is_le f.nought x then ok x else err bad_number
]

unfoldable pub unit_number : (f : Floats) → Value → Result Error f.Number
unit_number f v = elim (f.read v) [
  | none ↦ err bad_number
  | some x ↦ if f.is_le f.nought x && f.is_le x f.unity then ok x else err bad_number
]
