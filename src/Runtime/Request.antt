-- ===== src/Runtime/Request.antt =====
-- What `optimize` of src/prompt_performance_engine/runtime.py makes of its arguments.
use prompt_performance_engin.Prelude.{
  Bool, true, false, ℕ, ◌==◌, ◌*◌, ◌^◌, ◌||◌, Option, none, some, List, String, suc, zero,
}
use prompt_performance_engin.Prelude.Value.{Value, ℤ}
use prompt_performance_engin.Prelude.Result.{Result, ok, err, ◌>>◌, ensure}
use prompt_performance_engin.Contracts.Request.{
  OptimizationRequest, validate, Error as RequestError,
}
use prompt_performance_engin.Contracts.Strategies.{Strategy, candidate_strategy_plan}
use prompt_performance_engin.Runtime.Adapter.{
  Error, no_plan, request_refused, unhashable_count, count_conflict, bad_max_repairs,
}

-- Whether one repair is allowed, by `max_repairs`.
unfoldable pub repair_allowed : ℤ → Result Error Bool
repair_allowed (ℤ.pos zero) = ok false
repair_allowed (ℤ.pos (suc zero)) = ok true
repair_allowed n = err bad_max_repairs

unfoldable pub int_eq : ℤ → ℤ → Bool
int_eq (ℤ.pos m) (ℤ.pos n) = m == n
int_eq (ℤ.negsuc m) (ℤ.negsuc n) = m == n
int_eq m n = false

unfoldable pub bool_int : Bool → ℤ
bool_int true = ℤ.pos 1
bool_int false = ℤ.pos 0

-- `value == n`, for a value that Python can hash.
unfoldable pub equals_int : Value → ℤ → Bool
unfolding int_eq bool_int
equals_int (Value.int m) n = int_eq m n
equals_int (Value.bool b) n = int_eq (bool_int b) n
equals_int (Value.real (ℤ.pos c) k) (ℤ.pos n) = c == n * 10 ^ k
equals_int (Value.real (ℤ.negsuc c) k) (ℤ.negsuc n) = suc c == suc n * 10 ^ k
equals_int value n = false

-- `request.candidate_count not in {1, candidate_count}`
unfoldable pub check_conflict : Value → ℤ → Result Error Unit
check_conflict (Value.arr items) n = err unhashable_count
check_conflict (Value.obj fields) n = err unhashable_count
check_conflict value n = ensure (equals_int value (ℤ.pos 1) || equals_int value n) count_conflict

unfoldable pub refusing : Result RequestError Unit → Result Error Unit
refusing (ok t) = ok t
refusing (err e) = err (request_refused e)

unfoldable pub with_count : ℤ → OptimizationRequest → OptimizationRequest
with_count n request = record {
  schema_version = request.schema_version;
  source_prompt = request.source_prompt;
  mode = request.mode;
  output_format = request.output_format;
  domain = request.domain;
  audience = request.audience;
  target_model = request.target_model;
  target_surface = request.target_surface;
  required_behaviors = request.required_behaviors;
  forbidden_changes = request.forbidden_changes;
  candidate_count = Value.int n;
}

-- The request that is optimized.
unfoldable pub effective_request : OptimizationRequest → Option ℤ → Result Error OptimizationRequest
effective_request request none = do refusing (validate request); ok request
effective_request request (some n) = do
  refusing (validate (with_count n request))
  check_conflict request.candidate_count n
  ok (with_count n request)

-- The count and the format of a request that has passed `validate`.
unfoldable pub count_of : Value → ℕ
count_of (Value.int (ℤ.pos n)) = n
count_of value = 0

unfoldable pub text_of : Value → String
text_of (Value.str s) = s
text_of value = ""

unfoldable pub plan_of : OptimizationRequest → Result Error (List Strategy)
plan_of request = elim (candidate_strategy_plan (count_of request.candidate_count)) [
  | ok plan ↦ ok plan
  | err e ↦ err no_plan
]
