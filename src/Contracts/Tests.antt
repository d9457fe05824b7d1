-- ===== src/Contracts/Tests.antt =====
-- The theorems on requests at a concrete request, and the plan of its candidates.
use prompt_performance_engin.Prelude.{◌≡◌, refl, List, [], ◌∷◌, ◌≤◌, ℕ, take, length, ◌⊎◌, ◌<◌}
use prompt_performance_engin.Prelude.Value.{Value, ℤ, obj, field, end, real}
use prompt_performance_engin.Prelude.Result.{ok, err}
use prompt_performance_engin.Prelude.Text.{is_blank}
use prompt_performance_engin.Contracts.Request.{
  OptimizationRequest, validate, require_text, validate_optional_string, validate_count, from_dict,
  request_of, text_array, text_item, get_or, normalize_count, fields_of, to_dict,
}
use prompt_performance_engin.Contracts.RoundTrip.{from_dict-to_dict, from_dict-valid, IsCount}
use prompt_performance_engin.Contracts.Strategies.{
  candidate_strategy_plan, candidate_strategy_plan_lem, candidate_strategies, bad_count, Strategy,
}

abbrev request : OptimizationRequest
request = record {
  schema_version = Value.str "2.0.0";
  source_prompt = Value.str "Write a note.";
  mode = Value.str "concise";
  output_format = Value.str "standard";
  domain = Value.null;
  audience = Value.str "all";
  target_model = Value.null;
  target_surface = Value.str "chat";
  required_behaviors = "be kind" ∷ [];
  forbidden_changes = [];
  candidate_count = Value.int (ℤ.pos 3);
}

request_valid : validate request ≡ ok tt
unfolding validate require_text validate_optional_string validate_count is_blank
request_valid = refl

from_dict-to_dict_example :
    (to_dict request ≡ ok (obj (fields_of request)))
    × (from_dict (obj (fields_of request)) "other" ≡ ok request)
from_dict-to_dict_example = from_dict-to_dict request "other" request_valid

-- The count may be written 2.0; the surface falls back to the one given.
abbrev sent : Value
sent = obj (
    field "mode" (Value.str "balanced") (
      field "schema_version" (Value.str "2.0.0") (
        field "candidate_count" (real (ℤ.pos 20) 1) (
          field "source_prompt" (Value.str "Write.")
            (field "output_format" (Value.str "standard") end)))))

abbrev received : OptimizationRequest
received = record {
  schema_version = Value.str "2.0.0";
  source_prompt = Value.str "Write.";
  mode = Value.str "balanced";
  output_format = Value.str "standard";
  domain = Value.null;
  audience = Value.null;
  target_model = Value.null;
  target_surface = Value.str "api";
  required_behaviors = [];
  forbidden_changes = [];
  candidate_count = Value.int (ℤ.pos 2);
}

decoded : from_dict sent "api" ≡ ok received
unfolding from_dict request_of text_array text_item get_or normalize_count validate require_text
    validate_optional_string validate_count is_blank
decoded = refl

from_dict-valid_example : (validate received ≡ ok tt) × IsCount received.candidate_count
from_dict-valid_example = from_dict-valid sent "api" received decoded

abbrev three : ℕ
three = 3

abbrev plan : List Strategy
plan = take 3 candidate_strategies

candidate_strategy_plan_lem_example :
    (candidate_strategy_plan three ≡ ok plan → (length plan ≡ three) × (1 ≤ three) × (three ≤ 5))
    × ((three ≡ 0) ⊎ (5 < three) → candidate_strategy_plan three ≡ err bad_count)
candidate_strategy_plan_lem_example = candidate_strategy_plan_lem three plan
