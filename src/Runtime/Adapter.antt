-- ===== src/Runtime/Adapter.antt =====
-- The model adapter that src/prompt_performance_engine/runtime.py calls, and the record of a call:
-- `CompletionResponse`, `model_call_record` and the `ModelAdapter` protocol of
-- src/prompt_performance_engine/adapters.py. An adapter acts on a world of its own, a cancellation
-- token among it, and may raise. Digests are functions given to the model.
use prompt_performance_engin.Prelude.{
  String, Option, ℕ, List, [], ◌∷◌, ◌++◌, ◌≡◌, sym, ap, ◌∙◌, ap₂, length, suc, arith, length-append,
}
use prompt_performance_engin.Prelude.Value.{Fields}
use prompt_performance_engin.Prelude.Result.{Result, ok, err}
use prompt_performance_engin.Prelude.Action.{Action, pure, ◌>>=◌, ◌>>◌, through, ended_eq}
use prompt_performance_engin.Runtime.Parser.{ParseError}
use prompt_performance_engin.Contracts.Request.{Error as RequestError}

-- What ends an optimization: an adapter's own error, or a raise of the runtime.
pub data Error : Type 0 where
  adapter_raised : String → Error
  parse_failed : ParseError → Error
  request_refused : RequestError → Error
  bad_max_repairs count_conflict unhashable_count : Error
  compile_failed no_plan : Error
  selector_not_json selector_fields selected_not_integer selected_out_of_range : Error
  index_error invalid_artifact : Error

-- What `to_metadata` keeps of a response.
pub record Metadata : Type 0 where
  pub provider : String
  pub model : String
  pub response_id : Option String
  pub usage : Fields
  pub attempts : ℕ
  pub elapsed_ms : ℕ
  pub status : String

pub record CompletionResponse : Type 0 where
  pub text : String
  pub metadata : Metadata

pub record ModelCall : Type 0 where
  pub metadata : Metadata
  pub purpose : String
  pub request_sha256 : String
  pub response_sha256 : String

pub record Digests : Type 0 where
  pub of_text : String → String
  pub of_request : String → String → String

-- `model_call_record`, at a purpose that is not blank.
unfoldable pub model_call_record :
    Digests → CompletionResponse → String → String → String → ModelCall
model_call_record digests response purpose system_prompt user_payload = record {
  metadata = response.metadata;
  purpose = purpose;
  request_sha256 = digests.of_request system_prompt user_payload;
  response_sha256 = digests.of_text response.text;
}

pub record Adapter (W : Type 0) : Type 0 where
  pub complete : String → String → Action W String CompletionResponse

-- The world, and the list `model_calls` that the runtime appends to.
abbrev pub Session : Type 0 → Type 0
Session W = W × List ModelCall

module _ {W : Type 0} where
  abbrev in_session :
      List ModelCall
      → Result String CompletionResponse × W
      → Result Error CompletionResponse × Session W
  in_session calls (ok response, w) = (ok response, (w, calls))
  in_session calls (err e, w) = (err (adapter_raised e), (w, calls))

  -- `adapter.complete(...)`
  unfoldable pub complete :
      Adapter W → String → String → Action (Session W) Error CompletionResponse
  complete adapter system_prompt user_payload s =
      in_session s.1 (adapter.complete system_prompt user_payload s.0)

  -- `model_calls.append(model_call_record(...))`
  unfoldable pub append_call :
      Digests → CompletionResponse → String → String → String → Action (Session W) Error Unit
  append_call digests response purpose system_prompt user_payload s = (
    ok tt,
    (s.0, s.1 ++ (model_call_record digests response purpose system_prompt user_payload ∷ [])),
  )

  -- A call of the adapter, and its record.
  unfoldable pub call_model :
      Digests → Adapter W → String → String → String → Action (Session W) Error CompletionResponse
  call_model digests adapter purpose system_prompt user_payload = do
    response ← complete adapter system_prompt user_payload
    append_call digests response purpose system_prompt user_payload
    pure response

  in_session-keeps :
      (calls : List ModelCall) (o : Result String CompletionResponse × W) (r : CompletionResponse)
      (t : Session W)
      → in_session calls o ≡ (ok r, t)
      → t.1 ≡ calls
  in_session-keeps calls (ok x, w) r t h = sym (ap (λ s. s.1) (ended_eq h).1)
  in_session-keeps calls (err e, w) r t h = cc

  -- A call that returned is one record more.
  pub call_model-appends :
      (digests : Digests) (adapter : Adapter W) (purpose system_prompt user_payload : String)
      (s t : Session W) (response : CompletionResponse)
      → call_model digests adapter purpose system_prompt user_payload s ≡ (ok response, t)
      → t.1 ≡ s.1 ++ (model_call_record digests response purpose system_prompt user_payload ∷ [])
  unfolding call_model complete append_call
  call_model-appends digests adapter purpose system_prompt user_payload s t response h =
      let (r, u, called, rest) = through (complete adapter system_prompt user_payload) _ s h in
      let kept =
        in_session-keeps s.1 (adapter.complete system_prompt user_payload s.0) r u called in
      let (same, ended) = ended_eq rest in
      sym (ap (λ v. v.1) ended)
      ∙ ap₂
          (λ calls x.
            calls ++ (model_call_record digests x purpose system_prompt user_payload ∷ []))
          kept same

  pub call_length :
      (digests : Digests) (adapter : Adapter W) (purpose system_prompt user_payload : String)
      (s t : Session W) (response : CompletionResponse)
      → call_model digests adapter purpose system_prompt user_payload s ≡ (ok response, t)
      → length t.1 ≡ suc (length s.1)
  call_length digests adapter purpose system_prompt user_payload s t response h =
      ap length
        (call_model-appends digests adapter purpose system_prompt user_payload s t response h)
      ∙ ground (
        arith,
        length-append s.1
            (model_call_record digests response purpose system_prompt user_payload ∷ []),
      )
