-- ===== src/Runtime/Mock.antt =====
-- `MockSequenceAdapter` of src/prompt_performance_engine/adapters.py: predefined responses in order.
-- Its world is its responses, the calls it has recorded, and the cancellation token, when there is
-- one, with its flag.
use prompt_performance_engin.Prelude.{String, Bool, true, List, [], ◌∷◌, ◌++◌, Option, none, some}
use prompt_performance_engin.Prelude.Value.{end}
use prompt_performance_engin.Prelude.Result.{Result, ok, err}
use prompt_performance_engin.Runtime.Adapter.{Adapter, CompletionResponse}

pub data MockResponse : Type 0 where
  text : String → MockResponse
  complete_response : CompletionResponse → MockResponse

pub record Mock : Type 0 where
  pub responses : List MockResponse
  pub calls : List (String × String)
  pub cancelled : Option Bool

unfoldable pub as_response : String → MockResponse → CompletionResponse
as_response name (complete_response response) = response
as_response name (text t) = record {
  text = t;
  metadata = record {
    provider = "mock";
    model = name;
    response_id = none;
    usage = end;
    attempts = 1;
    elapsed_ms = 0;
    status = "completed";
  };
}

-- `self.responses.pop(0)`, once the call is recorded.
unfoldable pub pop_response :
    String
    → List MockResponse
    → List (String × String)
    → Option Bool
    → Result String CompletionResponse × Mock
unfolding as_response
pop_response name [] calls token = (
  err "MockSequenceAdapter has no response remaining.",
  record { responses = []; calls = calls; cancelled = token },
)
pop_response name (r ∷ rs) calls token =
    (ok (as_response name r), record { responses = rs; calls = calls; cancelled = token })

unfoldable pub mock_complete :
    String → String → String → Mock → Result String CompletionResponse × Mock
mock_complete name system_prompt user_payload m = elim m.cancelled [
  | some true ↦ (err "Adapter request was cancelled.", m)
  | _ ↦ pop_response name m.responses (m.calls ++ ((system_prompt, user_payload) ∷ [])) m.cancelled
]

unfoldable pub mock_adapter : String → Adapter Mock
mock_adapter name = record { complete = mock_complete name }
