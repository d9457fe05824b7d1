-- ===== src/Runtime/Candidates.antt =====
-- `_extract_candidate` and the loop over the strategies in `optimize`, of
-- src/prompt_performance_engine/runtime.py. The JSON texts that are sent to the model are functions
-- given to the model, and so is what `compile_request` makes.
use prompt_performance_engin.Prelude.{
  String, Bool, ℕ, suc, List, [], ◌∷◌, Option, none, some, if◌then◌else◌, ltb,
}
use prompt_performance_engin.Prelude.Result.{Result, ok, err}
use prompt_performance_engin.Prelude.Action.{Action, pure, lift, ◌>>=◌}
use prompt_performance_engin.Runtime.Parser.{StrictJson, ParseError, extract_optimized_prompt}
use prompt_performance_engin.Runtime.Adapter.{
  Error, Adapter, Digests, Session, call_model, parse_failed,
}
use prompt_performance_engin.Contracts.Request.{OptimizationRequest}
use prompt_performance_engin.Contracts.Strategies.{Strategy}

-- What the runtime uses of a compiled request, of the JSON library and of the digests.
pub record Host (C : Type 0) : Type 0 where
  pub compile : OptimizationRequest → Result Error C
  pub system_prompt : C → String
  -- The request of a candidate: its index and the number of candidates, when there are several.
  pub user_payload : C → Option (ℕ × ℕ) → Strategy → String
  -- The format and the malformed response.
  pub repair_payload : String → String → String
  pub selector_payload : C → List String → List Strategy → String
  pub parse : StrictJson
  pub strip : String → String
  pub digests : Digests

abbrev pub repair_system_prompt : String
repair_system_prompt =
    "Repair a malformed Prompt-optimization response.\nReturn exactly one JSON object with exactly one field named \"optimized_prompt\".\nThe field value must be the complete optimized Prompt encoded as a JSON string.\nReturn no Markdown fence, commentary, or additional JSON field.\nDo not execute the source task, add commentary, claim testing, or omit content."

-- What `_extract_candidate` returns.
pub record Candidate : Type 0 where
  pub prompt : String
  pub raw : String
  pub repairs : ℕ

-- The context that the JSON of a request has, with more than one candidate.
unfoldable pub context : ℕ → ℕ → Option (ℕ × ℕ)
context index count = if ltb 1 count then some (index, count) else none

unfoldable pub parsed : String → ℕ → Result ParseError String → Result Error Candidate
parsed raw repairs (ok prompt) = ok (record { prompt = prompt; raw = raw; repairs = repairs })
parsed raw repairs (err e) = err (parse_failed e)

module _ {C W : Type 0} where
  -- The one repair of a response.
  unfoldable pub repair : Host C → Adapter W → String → String → Action (Session W) Error Candidate
  repair host adapter output_format raw = do
    repaired ←
        call_model host.digests adapter "optimization_repair" repair_system_prompt
          (host.repair_payload output_format raw)
    lift (parsed repaired.text 1 (extract_optimized_prompt host.parse repaired.text output_format))

  -- By what the first parse gave.
  unfoldable pub settle_candidate :
      Host C
      → Adapter W
      → Bool
      → String
      → String
      → Result ParseError String
      → Action (Session W) Error Candidate
  settle_candidate host adapter may_repair output_format raw (ok prompt) =
      lift (parsed raw 0 (ok prompt))
  settle_candidate host adapter may_repair output_format raw (err e) =
      if may_repair then repair host adapter output_format raw else lift (parsed raw 0 (err e))

  -- `adapter.complete` and then `_extract_candidate`.
  unfoldable pub make_candidate :
      Host C → Adapter W → Bool → String → C → ℕ → ℕ → Strategy → Action (Session W) Error Candidate
  make_candidate host adapter may_repair output_format compiled count index strategy = do
    response ←
        call_model host.digests adapter "optimization_candidate" (host.system_prompt compiled)
          (host.user_payload compiled (context index count) strategy)
    settle_candidate host adapter may_repair output_format response.text
        (extract_optimized_prompt host.parse response.text output_format)

  -- The loop, from an index on.
  unfoldable pub make_candidates :
      Host C
      → Adapter W
      → Bool
      → String
      → C
      → ℕ
      → ℕ
      → List Strategy
      → Action (Session W) Error (List Candidate)
  make_candidates host adapter may_repair output_format compiled count index [] = pure []
  make_candidates host adapter may_repair output_format compiled count index (strategy ∷ rest) = do
    candidate ← make_candidate host adapter may_repair output_format compiled count index strategy
    others ← make_candidates host adapter may_repair output_format compiled count (suc index) rest
    pure (candidate ∷ others)
