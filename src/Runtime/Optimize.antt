-- ===== src/Runtime/Optimize.antt =====
-- `optimize` of src/prompt_performance_engine/runtime.py. Of the artifact the runtime section is
-- modelled; what `validate_artifact` finds in it is a function given to the model.
use prompt_performance_engin.Prelude.{
  Bool, ℕ, suc, ◌+◌, ◌==◌, if◌then◌else◌, String, Option, none, some, List, [], ◌∷◌, map, length,
  get_elem?, ltb,
}
use prompt_performance_engin.Prelude.Value.{ℤ}
use prompt_performance_engin.Prelude.Result.{Result, ok, err}
use prompt_performance_engin.Prelude.Action.{Action, lift, ◌>>=◌}
use prompt_performance_engin.Contracts.Request.{OptimizationRequest}
use prompt_performance_engin.Contracts.Strategies.{Strategy}
use prompt_performance_engin.Runtime.Adapter.{
  Error, Adapter, ModelCall, Session, index_error, invalid_artifact,
}
use prompt_performance_engin.Runtime.Usage.{Totals, aggregate_usage}
use prompt_performance_engin.Runtime.Candidates.{Host, Candidate, make_candidates}
use prompt_performance_engin.Runtime.Selection.{select_position}
use prompt_performance_engin.Runtime.Request.{
  repair_allowed, effective_request, plan_of, count_of, text_of,
}

-- A row of `artifact["runtime"]["selection"]["candidates"]`.
pub record Row : Type 0 where
  pub index : ℕ
  pub strategy : Strategy
  pub prompt : String
  pub prompt_sha256 : String
  pub selected : Bool

pub record Artifact : Type 0 where
  pub optimized_prompt : String
  pub model_calls : List ModelCall
  pub total_calls : ℕ
  pub total_usage : Totals
  pub method : String
  pub candidate_count : ℕ
  pub selected_index : ℕ
  pub selector_response_sha256 : Option String
  pub candidates : List Row

pub record OptimizationResult : Type 0 where
  pub optimized_prompt : String
  pub raw_response : String
  pub artifact : Artifact
  pub repair_count : ℕ
  pub model_calls : List ModelCall
  pub candidates : List String
  pub candidate_strategies : List String
  pub selected_index : ℕ

-- `enumerate(zip(candidates, candidate_strategies), start=1)`, from an index on.
unfoldable pub rows : (String → String) → ℕ → ℕ → List Candidate → List Strategy → List Row
rows sha256 selected index (c ∷ cs) (s ∷ ss) =
    record {
      index = index;
      strategy = s;
      prompt = c.prompt;
      prompt_sha256 = sha256 c.prompt;
      selected = index == selected;
    }
    ∷ rows sha256 selected (suc index) cs ss
rows sha256 selected index cs ss = []

-- `_artifact`
unfoldable pub artifact_of :
    (String → String)
    → String
    → List ModelCall
    → List Candidate
    → List Strategy
    → ℕ
    → Option String
    → Artifact
artifact_of sha256 prompt calls candidates strategies position selector_sha256 = record {
  optimized_prompt = prompt;
  model_calls = calls;
  total_calls = length calls;
  total_usage = aggregate_usage (map (λ (c : ModelCall). c.metadata.usage) calls);
  method = if ltb 1 (length candidates) then "model_selector" else "single_candidate";
  candidate_count = length candidates;
  selected_index = position + 1;
  selector_response_sha256 = selector_sha256;
  candidates = rows sha256 (position + 1) 1 candidates strategies;
}

-- `sum` of the repair counts.
unfoldable pub total_repairs : List Candidate → ℕ
total_repairs [] = 0
total_repairs (c ∷ cs) = c.repairs + total_repairs cs

unfoldable pub chosen : List Candidate → ℕ → Result Error Candidate
chosen candidates position = elim (get_elem? candidates position) [
  | none ↦ err index_error
  | some c ↦ ok c
]

unfoldable pub result_of :
    (String → String)
    → List ModelCall
    → List Candidate
    → List Strategy
    → ℕ
    → Option String
    → Candidate
    → OptimizationResult
unfolding artifact_of
result_of sha256 calls candidates strategies position selector_sha256 c = record {
  optimized_prompt = c.prompt;
  raw_response = c.raw;
  artifact = artifact_of sha256 c.prompt calls candidates strategies position selector_sha256;
  repair_count = total_repairs candidates;
  model_calls = calls;
  candidates = map (λ (x : Candidate). x.prompt) candidates;
  candidate_strategies = map (λ (s : Strategy). s.name) strategies;
  selected_index = position + 1;
}

-- `model_calls`
unfoldable pub calls_so_far : {W : Type 0} → Action (Session W) Error (List ModelCall)
calls_so_far s = (ok s.1, s)

-- An artifact with a violation is not returned.
unfoldable pub finish :
    {W : Type 0}
    → (Artifact → Bool)
    → OptimizationResult
    → Action (Session W) Error OptimizationResult
finish is_invalid result s =
    (if is_invalid result.artifact then err invalid_artifact else ok result, s)

module _ {C W : Type 0} where
  -- From the compiled request on.
  unfoldable pub run_plan :
      Host C
      → Adapter W
      → (Artifact → Bool)
      → Bool
      → OptimizationRequest
      → C
      → List Strategy
      → Action (Session W) Error OptimizationResult
  run_plan host adapter is_invalid may_repair request compiled plan = do
    candidates ←
        make_candidates host adapter may_repair (text_of request.output_format) compiled
          (count_of request.candidate_count) 1 plan
    selection ← select_position host adapter compiled candidates plan
    c ← lift (chosen candidates selection.0)
    calls ← calls_so_far
    finish is_invalid
        (result_of host.digests.of_text calls candidates plan selection.0 selection.1 c)

  -- `optimize`, with the list of its model calls at hand.
  unfoldable pub optimize_session :
      Host C
      → Adapter W
      → (Artifact → Bool)
      → OptimizationRequest
      → ℤ
      → Option ℤ
      → Action (Session W) Error OptimizationResult
  optimize_session host adapter is_invalid given max_repairs candidate_count = do
    may_repair ← lift (repair_allowed max_repairs)
    request ← lift (effective_request given candidate_count)
    compiled ← lift (host.compile request)
    plan ← lift (plan_of request)
    run_plan host adapter is_invalid may_repair request compiled plan

  -- `optimize`
  unfoldable pub optimize :
      Host C
      → Adapter W
      → (Artifact → Bool)
      → OptimizationRequest
      → ℤ
      → Option ℤ
      → Action W Error OptimizationResult
  optimize host adapter is_invalid given max_repairs candidate_count w =
      let (outcome, session) =
        optimize_session host adapter is_invalid given max_repairs candidate_count (w, []) in
      (outcome, session.0)
