-- ===== src/Host/Tests.antt =====
-- The theorems on the host at a plan with one slot, and one whole attempt.
use prompt_performance_engin.Budget.Amounts.{
  calls, input_tokens, output_tokens, money_microunits, wall_clock_ms, Amounts, Axis, tabulate,
  max_budget_value,
}
use prompt_performance_engin.Prelude.{
  String, none, some, ◌∷◌, ◌≤◌, [], true, arith, false, refl, ◌≡◌,
}
use prompt_performance_engin.Host.Attempt.{
  Arguments, Dispatched, RunnerOutcome, begin, Digests, VerifierAnswer, prepare, returned, answered,
  dispatch, timed_out, after_claim, claim_slot, after_reserve, identifier, natural, text_argument,
  or_raise,
}
use prompt_performance_engin.Host.Board.{Move, board, Step-Move}
use prompt_performance_engin.Host.Finish.{
  AttemptOutcome, finish, settle_attempt, after_settle, conclude, report_of, add_receipt,
}
use prompt_performance_engin.Host.FinishLaws.{IsConcluded}
use prompt_performance_engin.Host.Invariant.{IsPlanned, IsConsistent}
use prompt_performance_engin.Host.Output.{IsReleased, output_authorized, finish-IsBooked}
use prompt_performance_engin.Host.Plan.{
  Authority, Component, Frozen, ModelBinding, Slot, fresh_host, find_slot, find_component,
  find_binding, amounts_value,
}
use prompt_performance_engin.Host.Released.{IsBooked}
use prompt_performance_engin.Host.Steps.{
  Reach, Step, System, begun, opening, next, start, here, find_flight,
}
use prompt_performance_engin.Prelude.Value.{Value, int, ℤ, obj, end}
use prompt_performance_engin.Host.Laws.{Reach-IsConsistent, arrival_concludes}
use prompt_performance_engin.Prelude.Text.{is_ascii, is_blank}
use prompt_performance_engin.Budget.Ledger.{initial, methods}
use prompt_performance_engin.Prelude.Result.{ok}
use prompt_performance_engin.Host.Assess.{
  final_charge, observed_time, assess, assess_result, assess_receipt, reported_usage, failed,
  verified, unverified,
}
use prompt_performance_engin.Host.Checking.{
  check_result, is_text, is_one, as_text, as_status, is_mapping, resource,
}
use prompt_performance_engin.Host.Calls.{IsFrozenRequest, IsTaken, begin_authorized}

abbrev pub limits : Amounts
limits = tabulate 2 500 500 500 5000

abbrev worst : Amounts
worst = tabulate 1 100 50 10 1000

abbrev slot : Slot
slot = record {
  slot_id = "run-1";
  component_id = "candidate";
  unit_id = "unit-1";
  case_id = "case-1";
  replicate_index = 0;
  retry_index = 0;
  model_id = "model-1";
  purpose = "generation";
  route = "direct";
  route_authority_id = "route-1";
  system_prompt_sha256 = "be brief";
  user_payload_sha256 = "hello";
  seed = none;
}

abbrev component : Component
component = record { component_id = "candidate"; capacity = 1; maximums = worst }

abbrev binding : ModelBinding
binding = record {
  model_id = "model-1";
  provider = "acme";
  snapshot = "2026-01";
  parameters_sha256 = "p";
  retry_policy_sha256 = "r";
  cache_policy_sha256 = "c";
  seeds_sha256 = "s";
  pricing_entry_sha256 = "e";
  price_snapshot_sha256 = "n";
  pricing_currency = "USD";
}

abbrev pub authority : Authority
authority = record {
  campaign_sha256 = "campaign";
  preflight_sha256 = "preflight";
  evidence_expires_at = "2027";
  execution_authority_receipt_sha256 = "receipt";
  system_id = "system";
  execution_plan_sha256 = "plan";
}

abbrev pub frozen : Frozen
frozen = record {
  authority = authority;
  slots = slot ∷ [];
  components = component ∷ [];
  bindings = binding ∷ [];
}

-- Digests that keep what they are given.
abbrev pub digests : Digests
digests = record {
  text_sha256 = λ s. s;
  request_sha256 = λ r. r.user_payload;
  response_sha256 = λ s. s;
  context_sha256 = λ r response status usage. response;
}

abbrev pub arguments : Arguments
arguments = record {
  attempt_id = Value.str "run-1";
  component_id = Value.str "candidate";
  retry_index = int (ℤ.pos 0);
  model_id = Value.str "model-1";
  purpose = Value.str "generation";
  system_prompt = Value.str "be brief";
  user_payload = Value.str "hello";
}

abbrev pub dispatched : Dispatched
dispatched = record {
  component = component;
  reservation_token = "aa";
  request = record {
    slot = slot;
    binding = binding;
    system_prompt = "be brief";
    user_payload = "hello";
  };
}

abbrev system : System
system = begun [] (begin frozen digests false true "aa" arguments (fresh_host limits))

abbrev pub receipt : String
receipt = "aaaaaaaaaaaaaaaaaaaaaaaaaaaaaaaaaaaaaaaaaaaaaaaaaaaaaaaaaaaaaaaa"

abbrev pub verify : Value → String → VerifierAnswer
verify evidence context = answered (Value.str receipt)

abbrev pub reply : RunnerOutcome
reply = returned (record {
  text = Value.str "good morning";
  provider = Value.str "acme";
  model_id = Value.str "model-1";
  status = Value.str "success";
  input_tokens = int (ℤ.pos 20);
  output_tokens = int (ℤ.pos 5);
  money_microunits = int (ℤ.pos 1);
  physical_attempts = int (ℤ.pos 1);
  receipt_evidence = obj end;
})

worst-small : (x : Axis) → worst x ≤ max_budget_value
worst-small calls = omega arith
worst-small input_tokens = omega arith
worst-small output_tokens = omega arith
worst-small money_microunits = omega arith
worst-small wall_clock_ms = omega arith

pub frozen-IsPlanned : IsPlanned frozen
frozen-IsPlanned = (record { one = refl; small = worst-small }, tt)

dispatching : Step frozen digests (opening limits) system
dispatching = start false true "aa" arguments (unfold is_ascii in refl) refl

path : Reach frozen digests (opening limits) system
path = next here dispatching

-- The attempt is with the runner.
found : find_flight "run-1" system.in_flight ≡ some dispatched
unfolding begin prepare dispatch after_claim claim_slot after_reserve identifier natural
    text_argument or_raise find_slot find_component find_binding amounts_value fresh_host initial
    methods find_flight
found = refl

Reach-IsConsistent_example : IsConsistent frozen system
Reach-IsConsistent_example = Reach-IsConsistent frozen digests limits system frozen-IsPlanned path

arrival_concludes_example :
    IsConcluded (finish frozen digests verify dispatched timed_out none system.host).0
arrival_concludes_example =
    arrival_concludes frozen digests limits system verify "run-1" dispatched timed_out none
      frozen-IsPlanned path found

finish-IsBooked_example :
    IsBooked system.host dispatched
      (finish frozen digests verify dispatched timed_out none system.host).1
finish-IsBooked_example =
    finish-IsBooked frozen digests limits system verify "run-1" dispatched timed_out none
      frozen-IsPlanned path found

Step-Move_example : Move (board (opening limits)) (board system)
Step-Move_example =
    Step-Move frozen digests limits (opening limits) system frozen-IsPlanned here dispatching

abbrev outcome : AttemptOutcome
outcome = record {
  report = record {
    authority = authority;
    attempt_id = "run-1";
    slot = slot;
    binding = binding;
    request_sha256 = "hello";
    response_sha256 = some "good morning";
    provider_status = "success";
    usage = tabulate 1 20 5 1 40;
    receipt_sha256 = some receipt;
    usable = true;
    failure_code = none;
  };
  output_text = some "good morning";
}

returned_output :
    (finish frozen digests verify dispatched reply (some 40) system.host).0 ≡ ok outcome
unfolding finish settle_attempt after_settle final_charge observed_time assess assess_result
    assess_receipt check_result is_text is_one as_text as_status is_mapping resource reported_usage
    failed verified unverified conclude report_of add_receipt begin prepare dispatch after_claim
    claim_slot after_reserve identifier natural text_argument or_raise find_slot find_component
    find_binding amounts_value fresh_host initial methods is_blank
returned_output = refl

output_authorized_example :
    IsReleased digests verify dispatched reply (some 40) system.host outcome "good morning"
output_authorized_example =
    output_authorized frozen digests limits system verify "run-1" dispatched reply (some 40) outcome
      "good morning" frozen-IsPlanned path found returned_output refl

begin_answer :
    (begin frozen digests false true "aa" arguments (fresh_host limits)).0 ≡ ok dispatched
unfolding begin prepare dispatch after_claim claim_slot after_reserve identifier natural
    text_argument or_raise find_slot find_component find_binding amounts_value fresh_host initial
    methods
begin_answer = refl

begin_authorized_example :
    IsFrozenRequest frozen digests arguments dispatched.request
    × (false ≡ false)
    × IsTaken frozen (fresh_host limits) dispatched
begin_authorized_example =
    begin_authorized frozen digests false true "aa" arguments (fresh_host limits) dispatched
      begin_answer
