-- ===== src/Provider/Attempts.antt =====
-- `OpenAIResponsesAdapter.complete` of src/prompt_performance_engine/adapters.py: its attempts. The
-- transport, the JSON decoder and the clock are given to the model; what they may raise are values.
use prompt_performance_engin.Prelude.{
  String, Bool, true, false, ℕ, zero, suc, ltb, leb, ◌==◌, ◌||◌, not, List, Option, none, some,
  if◌then◌else◌, str_eq,
}
use prompt_performance_engin.Prelude.Value.{Value, ℤ, Fields, get, nil, arr, obj, end}
use prompt_performance_engin.Prelude.Result.{Result, ok, err}
use prompt_performance_engin.Prelude.Text.{is_blank}
use prompt_performance_engin.Runtime.Adapter.{CompletionResponse}
use prompt_performance_engin.Provider.Output.{OutputError, extract_output_text, usage}

-- What `_send_interruptibly` may raise: an HTTP error with its code, a timeout or another transport
-- error, a text or value error, a cancellation.
pub data SendFailure : Type 0 where
  http_error : ℕ → SendFailure
  transport_error value_error send_cancelled : SendFailure

pub data Error : Type 0 where
  adapter_cancelled missing_credential invalid_json : Error
  http_status : ℕ → Error
  request_failed : ℕ → Error
  no_text : OutputError → Error

pub record Transport (W : Type 0) : Type 0 where
  pub is_cancelled : W → Bool
  pub api_key : W → String
  pub send : W → Result SendFailure (ℕ × String) × W
  -- Whether the wait after an attempt was cancelled.
  pub sleep : ℕ → W → Bool × W
  pub elapsed_ms : W → ℕ
  pub decode : String → Option Fields
  pub join : List String → String
  pub to_text : Value → String

-- What one attempt came to.
pub data Outcome : Type 0 where
  finished : CompletionResponse → Outcome
  refused : ℕ → Outcome
  failed : Outcome
  stopped : Error → Outcome

-- What the adapter does then.
pub data Decision : Type 0 where
  give : CompletionResponse → Decision
  stop : Error → Decision
  again : Decision

-- `bool(value)`
unfoldable pub is_true : Value → Bool
is_true Value.null = false
is_true (Value.bool b) = b
is_true (Value.int (ℤ.pos zero)) = false
is_true (Value.real (ℤ.pos zero) k) = false
is_true (Value.str s) = not (str_eq s "")
is_true (arr nil) = false
is_true (obj end) = false
is_true value = true

-- `str(data.get(key) or default)`
unfoldable pub text_or : (Value → String) → String → Option Value → String
text_or to_text default none = default
text_or to_text default (some v) = if is_true v then to_text v else default

unfoldable pub id_of : Option Value → Option String
id_of (some (Value.str s)) = some s
id_of value = none

unfoldable pub retryable : ℕ → Bool
retryable code = (code == 408 || code == 409 || code == 429) || leb 500 code

-- The `except` clauses, after so many attempts.
unfoldable pub decide_attempt : ℕ → ℕ → Outcome → Decision
decide_attempt max_retries attempts (finished response) = give response
decide_attempt max_retries attempts (refused code) =
    if not (retryable code) || ltb max_retries attempts then stop (http_status code) else again
decide_attempt max_retries attempts failed =
    if ltb max_retries attempts then stop (request_failed attempts) else again
decide_attempt max_retries attempts (stopped e) = stop e

-- How `complete` ended, with the world that it left; none when the fuel is used up.
abbrev pub Ended : Type 0 → Type 0
Ended W = Option (Result Error CompletionResponse × W)

module _ {W : Type 0} where
  unfoldable pub response_of : Transport W → String → ℕ → ℕ → Fields → String → CompletionResponse
  response_of t model attempts elapsed fs text = record {
    text = text;
    metadata = record {
      provider = "openai";
      model = text_or t.to_text model (get "model" fs);
      response_id = id_of (get "id" fs);
      usage = usage (get "usage" fs);
      attempts = attempts;
      elapsed_ms = elapsed;
      status = text_or t.to_text "completed" (get "status" fs);
    };
  }

  unfoldable pub read_text :
      Transport W → String → ℕ → ℕ → Fields → Result OutputError String → Outcome
  read_text t model attempts elapsed fs (ok text) =
      finished (response_of t model attempts elapsed fs text)
  read_text t model attempts elapsed fs (err e) = stopped (no_text e)

  unfoldable pub read_body : Transport W → String → ℕ → ℕ → Option Fields → Outcome
  read_body t model attempts elapsed (some fs) =
      read_text t model attempts elapsed fs (extract_output_text t.join fs)
  read_body t model attempts elapsed none = stopped invalid_json

  unfoldable pub outcome_of :
      Transport W → String → ℕ → ℕ → Result SendFailure (ℕ × String) → Outcome
  outcome_of t model attempts elapsed (ok (status, raw)) =
      if leb 400 status then refused status else read_body t model attempts elapsed (t.decode raw)
  outcome_of t model attempts elapsed (err (http_error code)) = refused code
  outcome_of t model attempts elapsed (err transport_error) = failed
  outcome_of t model attempts elapsed (err value_error) = stopped invalid_json
  outcome_of t model attempts elapsed (err send_cancelled) = stopped adapter_cancelled

  -- After the wait that follows an attempt.
  unfoldable pub after_sleep : (W → Ended W) → Bool × W → Ended W
  after_sleep rest (true, w) = some (err adapter_cancelled, w)
  after_sleep rest (false, w) = rest w

  unfoldable pub act : Transport W → (W → Ended W) → ℕ → Decision → W → Ended W
  act t rest attempts (give response) w = some (ok response, w)
  act t rest attempts (stop e) w = some (err e, w)
  act t rest attempts again w = after_sleep rest (t.sleep attempts w)

  -- The loop, with so many attempts made.
  unfoldable pub attempt_from : Transport W → String → ℕ → ℕ → ℕ → W → Ended W
  attempt_from t model max_retries zero attempts w = none
  attempt_from t model max_retries (suc fuel) attempts w =
      let rest = attempt_from t model max_retries fuel (suc attempts) in
      let (sent, v) = t.send w in
      if t.is_cancelled w
      then some (err adapter_cancelled, w)
      else act t rest (suc attempts)
          (decide_attempt max_retries (suc attempts)
            (outcome_of t model (suc attempts) (t.elapsed_ms v) sent))
          v

  -- `complete`, on fuel for the attempts that the policy allows.
  unfoldable pub complete_request : Transport W → String → ℕ → W → Ended W
  complete_request t model max_retries w =
      let result = attempt_from t model max_retries (suc max_retries) 0 w in
      if t.is_cancelled w
      then some (err adapter_cancelled, w)
      else if is_blank (t.api_key w)
      then some (err missing_credential, w)
      else result
