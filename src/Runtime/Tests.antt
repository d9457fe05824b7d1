-- ===== src/Runtime/Tests.antt =====
-- The theorems on an optimization at a mock adapter.
use prompt_performance_engin.Prelude.{
  String, ◌≡◌, refl, ℕ, Bool, false, none, some, [], ◌∷◌, str_eq, if◌then◌else◌, List, ◌<◌, ◌↔◌,
  contains, true,
}
use prompt_performance_engin.Prelude.Value.{Value, ℤ, field, end, Fields, keys, get}
use prompt_performance_engin.Prelude.Text.{is_blank}
use prompt_performance_engin.Prelude.Result.{Result, ok, err}
use prompt_performance_engin.Contracts.Request.{
  OptimizationRequest, validate, require_text, validate_optional_string, validate_count,
}
use prompt_performance_engin.Contracts.Strategies.{candidate_strategy_plan}
use prompt_performance_engin.Runtime.Parser.{
  StrictJson, extract_optimized_prompt, decode_transport, prompt_field, supported_output_formats,
  extract_optimized_prompt_iff,
}
use prompt_performance_engin.Runtime.Adapter.{
  Error, complete, append_call, call_model, model_call_record, bad_max_repairs,
}
use prompt_performance_engin.Runtime.Mock.{Mock, mock_adapter, mock_complete, pop_response, text}
use prompt_performance_engin.Runtime.Candidates.{
  Host, context, parsed, repair, settle_candidate, make_candidate, make_candidates,
}
use prompt_performance_engin.Runtime.Reply.{
  selection_of, decode_selection, selected_position, selection_of-bounds,
}
use prompt_performance_engin.Runtime.Selection.{select_candidate, select_position}
use prompt_performance_engin.Runtime.Request.{
  repair_allowed, effective_request, refusing, with_count, check_conflict, equals_int, int_eq,
  plan_of, count_of, text_of,
}
use prompt_performance_engin.Runtime.Optimize.{
  Artifact, OptimizationResult, optimize, optimize_session, run_plan, chosen, calls_so_far, finish,
  result_of, artifact_of, rows, total_repairs,
}
use prompt_performance_engin.Runtime.OptimizeLaws.{IsAccounted, optimize-IsAccounted}
use prompt_performance_engin.Runtime.Usage.{
  total_of, aggregate_usage, sum_of, all_integers_under, aggregate_usage_lem,
}
use prompt_performance_engin.Runtime.RequestLaws.{
  optimize_refuses, requested, IsRefused, many_repairs, Agrees, effective_request_lem,
}
use prompt_performance_engin.Prelude.Dict.{same_set}

abbrev given : OptimizationRequest
given = record {
  schema_version = Value.str "2.0.0";
  source_prompt = Value.str "Write a note.";
  mode = Value.str "concise";
  output_format = Value.str "standard";
  domain = Value.null;
  audience = Value.null;
  target_model = Value.null;
  target_surface = Value.str "chat";
  required_behaviors = [];
  forbidden_changes = [];
  candidate_count = Value.int (ℤ.pos 1);
}

-- A decoder of two objects: "p…" stands for a prompt, "s" for the selection of the second.
abbrev decoder : StrictJson
decoder s =
    if str_eq s "p1"
    then some (field "optimized_prompt" (Value.str "first") end)
    else if str_eq s "p2"
    then some (field "optimized_prompt" (Value.str "second") end)
    else if str_eq s "s"
    then some (field "selected_index" (Value.int (ℤ.pos 2)) end)
    else none

abbrev host : Host ℕ
host = record {
  compile = λ r. ok 0;
  system_prompt = λ c. "system";
  user_payload = λ c where_ strategy. "payload";
  repair_payload = λ format raw. raw;
  selector_payload = λ c prompts strategies. "choose";
  parse = decoder;
  strip = λ s. s;
  digests = record { of_text = λ s. s; of_request = λ a b. b };
}

-- The first candidate is malformed and is repaired; the second is selected.
abbrev start : Mock
start = record {
  responses = text "oops" ∷ text "p1" ∷ text "p2" ∷ text "s" ∷ [];
  calls = [];
  cancelled = none;
}

abbrev accepts : Artifact → Bool
accepts a = false

abbrev outcome : Result Error OptimizationResult × Mock
outcome = optimize host (mock_adapter "mock") accepts given (ℤ.pos 1) (some (ℤ.pos 2)) start

abbrev prompt_of : Result Error OptimizationResult → String
prompt_of (ok r) = r.optimized_prompt
prompt_of (err e) = ""

abbrev result_in : OptimizationResult → Result Error OptimizationResult → OptimizationResult
result_in d (ok r) = r
result_in d (err e) = d

abbrev no_result : OptimizationResult
no_result = record {
  optimized_prompt = "";
  raw_response = "";
  artifact = record {
    optimized_prompt = "";
    model_calls = [];
    total_calls = 0;
    total_usage = [];
    method = "";
    candidate_count = 0;
    selected_index = 0;
    selector_response_sha256 = none;
    candidates = [];
  };
  repair_count = 0;
  model_calls = [];
  candidates = [];
  candidate_strategies = [];
  selected_index = 0;
}

abbrev result : OptimizationResult
result = result_in no_result outcome.0

returns_second : (outcome ≡ (ok result, outcome.1)) × (prompt_of outcome.0 ≡ "second")
unfolding optimize optimize_session run_plan chosen calls_so_far finish result_of artifact_of rows
    total_repairs repair_allowed effective_request refusing with_count check_conflict equals_int
    int_eq plan_of count_of text_of select_candidate select_position selection_of decode_selection
    selected_position context parsed repair settle_candidate make_candidate make_candidates
    mock_adapter mock_complete pop_response complete append_call call_model model_call_record
    extract_optimized_prompt decode_transport prompt_field is_blank validate require_text
    validate_optional_string validate_count candidate_strategy_plan
returns_second = (refl, refl)

optimize-IsAccounted_example :
    (may_repair : Bool) × (repair_allowed (ℤ.pos 1) ≡ ok may_repair)
    × IsAccounted may_repair accepts result
optimize-IsAccounted_example =
    optimize-IsAccounted host (mock_adapter "mock") accepts given (ℤ.pos 1) (some (ℤ.pos 2)) start
      outcome.1 result returns_second.0

two_repairs : IsRefused given (ℤ.pos 2) none bad_max_repairs
two_repairs = many_repairs (λ h. cc) (λ h. cc)

optimize_refuses_example :
    optimize host (mock_adapter "mock") accepts given (ℤ.pos 2) none start
    ≡ (err bad_max_repairs, start)
optimize_refuses_example =
    optimize_refuses host (mock_adapter "mock") accepts given (ℤ.pos 2) none start bad_max_repairs
      two_repairs

accepted_request : effective_request given (some (ℤ.pos 2)) ≡ ok (with_count (ℤ.pos 2) given)
unfolding effective_request refusing with_count check_conflict equals_int int_eq is_blank validate
    require_text validate_optional_string validate_count
accepted_request = refl

effective_request_lem_example :
    (with_count (ℤ.pos 2) given ≡ requested given (some (ℤ.pos 2)))
    × (validate (with_count (ℤ.pos 2) given) ≡ ok tt)
    × Agrees given (some (ℤ.pos 2))
effective_request_lem_example =
    effective_request_lem given (with_count (ℤ.pos 2) given) (some (ℤ.pos 2)) accepted_request

extract_optimized_prompt_iff_example :
    extract_optimized_prompt decoder "p1" "standard" ≡ ok "first" ↔ (
      (is_blank "p1" ≡ false)
      × (contains "standard" supported_output_formats ≡ true)
      × (fs : Fields) × (decoder "p1" ≡ some fs)
      × (same_set (keys fs) ("optimized_prompt" ∷ []) ≡ true)
      × (get "optimized_prompt" fs ≡ some (Value.str "first"))
      × (is_blank "first" ≡ false))
extract_optimized_prompt_iff_example = extract_optimized_prompt_iff decoder "p1" "standard" "first"

second_selected : selection_of decoder 2 "s" ≡ ok 1
unfolding selection_of decode_selection selected_position
second_selected = refl

selection_of-bounds_example : 1 < 2
selection_of-bounds_example = selection_of-bounds decoder 2 1 "s" second_selected

abbrev used : List Fields
used =
    field "tokens" (Value.int (ℤ.pos 5)) (field "cached" (Value.bool true) end)
    ∷ field "tokens" (Value.int (ℤ.negsuc 1)) end
    ∷ []

aggregate_usage_lem_example :
    total_of "tokens" (aggregate_usage used) ≡ sum_of (all_integers_under "tokens" used)
aggregate_usage_lem_example = aggregate_usage_lem "tokens" used
