-- ===== src/Host/Attempt.antt =====
-- `execute_attempt` of src/prompt_performance_engine/frontier_host.py. Up to the call of the runner,
-- which takes long and holds no lock, it is `begin`; what follows the call is `finish`.
-- The source takes its lock once in `_claim_slot`, once in the ledger's `reserve` and, if that raises,
-- once in `_release_slot`: `begin` is the three in turn, with no other thread in between.
use prompt_performance_engin.Prelude.{
  ℕ, ◌+◌, ◌-◌, Bool, ◌&&◌, ◌==◌, leb, String, str_eq, contains, Option, none, some, List, [], ◌∷◌,
  if◌then◌else◌,
}
use prompt_performance_engin.Prelude.Result.{
  Result, ok, err, ◌>>=◌, ◌>>◌, ensure, raise_if, attempt,
}
use prompt_performance_engin.Prelude.Value.{Value, ℤ}
use prompt_performance_engin.Budget.Amounts.{Amounts, Error as LedgerError}
use prompt_performance_engin.Budget.Ledger.{Ledger, Reservation, reserve, is_identifier}
use prompt_performance_engin.Host.Plan.{
  Slot, Component, ModelBinding, Frozen, HostState, find_slot, find_component, find_binding,
  amounts_value,
}

-- What `execute_attempt` raises before the call, from the ledger, or when it is interrupted.
pub data Error : Type 0 where
  bad_identifier bad_retry_index text_not_string expired : Error
  not_scheduled metadata_mismatch text_mismatch unknown_model bad_clock : Error
  slot_consumed capacity_exhausted unknown_component : Error
  ledger_refused : LedgerError → Error
  interrupted : Error

-- The arguments of `execute_attempt`.
pub record Arguments : Type 0 where
  pub attempt_id : Value
  pub component_id : Value
  pub retry_index : Value
  pub model_id : Value
  pub purpose : Value
  pub system_prompt : Value
  pub user_payload : Value

-- `ProviderAttemptRequest`: its fields from the slot and the binding are in `slot` and `binding`.
pub record Request : Type 0 where
  pub slot : Slot
  pub binding : ModelBinding
  pub system_prompt : String
  pub user_payload : String

-- What the digests give, of a text, of a request, and of the whole context of a receipt. Texts here
-- have no lone surrogates, on which `sha256_json` raises a UnicodeEncodeError, so each has a digest.
pub record Digests : Type 0 where
  pub text_sha256 : String → String
  pub request_sha256 : Request → String
  pub response_sha256 : String → String
  pub context_sha256 : Request → String → String → Amounts → String

-- An attempt whose request is with the runner.
pub record Dispatched : Type 0 where
  pub component : Component
  pub reservation_token : String
  pub request : Request

-- `ProviderAttemptResult`, with the fields that are tested left as they come.
pub record ProviderAttemptResult : Type 0 where
  pub text : Value
  pub provider : Value
  pub model_id : Value
  pub status : Value
  pub input_tokens : Value
  pub output_tokens : Value
  pub money_microunits : Value
  pub physical_attempts : Value
  pub receipt_evidence : Value

-- How the call of the runner ended: `raised_invalid` is an arithmetic, attribute, type or value
-- error, `stopped` an exception that is no `Exception`.
pub data RunnerOutcome : Type 0 where
  returned : ProviderAttemptResult → RunnerOutcome
  returned_other raised_invalid timed_out raised stopped : RunnerOutcome

-- How the receipt verifier ended.
pub data VerifierAnswer : Type 0 where
  answered : Value → VerifierAnswer
  verifier_raised verifier_stopped : VerifierAnswer

unfoldable pub identifier : Value → Result Error String
identifier (Value.str s) = if is_identifier s then ok s else err bad_identifier
identifier value = err bad_identifier

unfoldable pub natural : Value → Result Error ℕ
natural (Value.int (ℤ.pos n)) = ok n
natural value = err bad_retry_index

unfoldable pub text_argument : Value → Result Error String
text_argument (Value.str s) = ok s
text_argument value = err text_not_string

unfoldable pub or_raise : {A : Type 0} → Error → Option A → Result Error A
or_raise e none = err e
or_raise e (some a) = ok a

-- `_claim_slot`
unfoldable pub claim_slot : Frozen → Slot → HostState → Result Error Component × HostState
claim_slot frozen slot s =
    if contains slot.slot_id s.used_slots
    then (err slot_consumed, s)
    else elim (find_component slot.component_id frozen.components) [
      | none ↦ (err unknown_component, s)
      | some c ↦
          if leb c.capacity (s.allocated slot.component_id) then (err capacity_exhausted, s) else (
            ok c,
            record s {
              used_slots = slot.slot_id ∷ s.used_slots;
              allocated =
                  λ id. if str_eq slot.component_id id then s.allocated id + 1 else s.allocated id;
            },
          )
    ]

-- `_used_slots.remove(slot_id)`
unfoldable pub remove : String → List String → List String
remove id [] = []
remove id (j ∷ js) = if str_eq j id then js else j ∷ remove id js

-- `_release_slot`
unfoldable pub release_slot : Slot → HostState → HostState
release_slot slot s = record s {
  used_slots = remove slot.slot_id s.used_slots;
  allocated = λ id. if str_eq slot.component_id id then s.allocated id - 1 else s.allocated id;
}

-- After the ledger has answered: a refusal gives the slot back.
unfoldable pub after_reserve :
    Request
    → Component
    → HostState
    → Result LedgerError Reservation × Ledger
    → Result Error Dispatched × HostState
unfolding release_slot
after_reserve request c s (ok r, l) = (
  ok (record { component = c; reservation_token = r.reservation_token; request = request }),
  record s { ledger = l },
)
after_reserve request c s (err e, l) =
    (err (ledger_refused e), release_slot request.slot (record s { ledger = l }))

unfoldable pub after_claim :
    Request → String → Result Error Component × HostState → Result Error Dispatched × HostState
unfolding after_reserve
after_claim request token (err e, t) = (err e, t)
after_claim request token (ok c, t) =
    after_reserve request c t
      (reserve (Value.str request.slot.slot_id) (amounts_value c.maximums) token t.ledger)

-- The slot is claimed, and the worst case of the call is reserved.
unfoldable pub dispatch :
    Frozen → String → Request → HostState → Result Error Dispatched × HostState
dispatch frozen token request s = after_claim request token (claim_slot frozen request.slot s)

-- The checks before the slot is claimed.
unfoldable pub prepare : Frozen → Digests → Bool → Bool → Arguments → Result Error Request
prepare frozen digests is_expired clock_works a = do
  attempt_id ← identifier a.attempt_id
  component_id ← identifier a.component_id
  model_id ← identifier a.model_id
  purpose ← identifier a.purpose
  retry_index ← natural a.retry_index
  system_prompt ← text_argument a.system_prompt
  user_payload ← text_argument a.user_payload
  raise_if is_expired expired
  slot ← or_raise not_scheduled (find_slot attempt_id frozen.slots)
  ensure
      (str_eq slot.component_id component_id
        && slot.retry_index == retry_index
        && str_eq slot.model_id model_id
        && str_eq slot.purpose purpose)
      metadata_mismatch
  ensure
      (str_eq slot.system_prompt_sha256 (digests.text_sha256 system_prompt)
        && str_eq slot.user_payload_sha256 (digests.text_sha256 user_payload))
      text_mismatch
  binding ← or_raise unknown_model (find_binding model_id frozen.bindings)
  ensure clock_works bad_clock
  ok (record {
    slot = slot;
    binding = binding;
    system_prompt = system_prompt;
    user_payload = user_payload;
  })

-- `execute_attempt`, up to the call of the runner.
unfoldable pub begin :
    Frozen
    → Digests
    → Bool
    → Bool
    → String
    → Arguments
    → HostState
    → Result Error Dispatched × HostState
begin frozen digests is_expired clock_works token a =
    attempt (prepare frozen digests is_expired clock_works a) (dispatch frozen token)
