-- ===== src/Host/Lookups.antt =====
-- The lookups of `execute_attempt` of src/prompt_performance_engine/frontier_host.py in the dicts
-- that `__init__` fills: none of them raises a KeyError.
use prompt_performance_engin.Host.Attempt.{
  unknown_component, Error, after_reserve, begin, dispatch, Request, after_claim, Dispatched,
  claim_slot, ledger_refused, slot_consumed, capacity_exhausted,
}
use prompt_performance_engin.Budget.Amounts.{Error as LedgerError}
use prompt_performance_engin.Prelude.Result.{
  Result, ok, err, ◌>>=◌, ◌>>◌, ensure, raise_if, ensure-ok, attempt_induction,
}
use prompt_performance_engin.Prelude.{
  List, none, some, Bool, All, String, if_induction, ℕ, ◌≡◌, str_eq, ◌∷◌, Option, ◌&&◌, Bool-cases,
  ◌==◌, inl, true, subst, sym, ◌∙◌, inr, [], refl, false, ◌≢◌, if◌then◌else◌, ap, contains, leb,
}
use prompt_performance_engin.Host.Attempt.{
  identifier, natural, or_raise, text_argument, text_not_string, bad_retry_index, prepare, Digests,
  bad_identifier, Arguments, expired, not_scheduled, metadata_mismatch, unknown_model,
  text_mismatch, bad_clock,
}
use prompt_performance_engin.Host.Plan.{
  Frozen, find_slot, Slot, find_binding, Authority, HostState, Component, find_component,
  ModelBinding,
}
use prompt_performance_engin.Prelude.Value.{Value, ℤ}
use prompt_performance_engin.Host.Placed.{IsPlaced, construct-IsPlaced}
use prompt_performance_engin.Budget.Ledger.{is_identifier, Reservation, Ledger}
use prompt_performance_engin.Host.Calls.{matches_slot, or_raise-ok, prepare-IsFrozenRequest}
use prompt_performance_engin.Host.Construct.{construct}
use prompt_performance_engin.Host.BeginLaws.{taken}

-- The errors that stand for a KeyError.
abbrev pub is_key_error : Error → Bool
is_key_error unknown_model = true
is_key_error unknown_component = true
is_key_error e = false

abbrev Finds : {A : Type 0} → Result Error A → Type 0
Finds r = (e : Error) → r ≡ err e → is_key_error e ≡ false

module _ {A B : Type 0} where
  bind-Finds :
      (r : Result Error A) (f : A → Result Error B)
      → Finds r
      → ((a : A) → r ≡ ok a → Finds (f a))
      → Finds (r >>= f)
  bind-Finds (ok a) f p q = q a refl
  bind-Finds (err e) f p q = λ x h. p x (ap_err h)
    where
      ap_err :
          {x : Error}
          → ◌≡◌ {A = Result Error B} (err e) (err x)
          → ◌≡◌ {A = Result Error A} (err e) (err x)
      ap_err h = cc

  then-Finds :
      (r : Result Error A) (s : Result Error B)
      → Finds r
      → ((a : A) → r ≡ ok a → Finds s)
      → Finds (r >> s)
  then-Finds (ok a) s p q = q a refl
  then-Finds (err e) s p q = λ x h. p x (ap_err h)
    where
      ap_err :
          {x : Error}
          → ◌≡◌ {A = Result Error B} (err e) (err x)
          → ◌≡◌ {A = Result Error A} (err e) (err x)
      ap_err h = cc

raise-Finds : {A : Type 0} (x : Error) → is_key_error x ≡ false → Finds {A = A} (err x)
raise-Finds x fine e h = cc

return-Finds : {A : Type 0} (a : A) → Finds (ok a)
return-Finds a e h = cc

ensure-Finds : (b : Bool) (x : Error) → is_key_error x ≡ false → Finds (ensure b x)
ensure-Finds true x fine = return-Finds tt
ensure-Finds false x fine = raise-Finds x fine

raise_if-Finds : (b : Bool) (x : Error) → is_key_error x ≡ false → Finds (raise_if b x)
raise_if-Finds true x fine = raise-Finds x fine
raise_if-Finds false x fine = return-Finds tt

identifier-Finds : (v : Value) → Finds (identifier v)
unfolding identifier
identifier-Finds (Value.str s) =
    if_induction Finds (is_identifier s) (λ e. return-Finds s)
      (λ e. raise-Finds bad_identifier refl)
identifier-Finds _ = raise-Finds bad_identifier refl

natural-Finds : (v : Value) → Finds (natural v)
unfolding natural
natural-Finds (Value.int (ℤ.pos n)) = return-Finds n
natural-Finds _ = raise-Finds bad_retry_index refl

text_argument-Finds : (v : Value) → Finds (text_argument v)
unfolding text_argument
text_argument-Finds (Value.str s) = return-Finds s
text_argument-Finds _ = raise-Finds text_not_string refl

or_raise-Finds :
    {A : Type 0} (x : Error) (o : Option A) → is_key_error x ≡ false → Finds (or_raise x o)
unfolding or_raise
or_raise-Finds x none fine = raise-Finds x fine
or_raise-Finds x (some a) fine = return-Finds a

-- The last checks, with whatever binding was found.
rest-Finds :
    (same_texts clock_works : Bool) (binding : Result Error ModelBinding)
    (f : ModelBinding → Request)
    → Finds binding
    → Finds (
        ensure same_texts text_mismatch
        >> (binding >>= λ b. ensure clock_works bad_clock >> ok (f b)))
rest-Finds same_texts clock_works binding f there =
    then-Finds _ _ (ensure-Finds same_texts text_mismatch refl) (λ _ _.
      bind-Finds binding (λ b. ensure clock_works bad_clock >> ok (f b)) there
        (λ b _.
          then-Finds _ (ok (f b)) (ensure-Finds clock_works bad_clock refl)
            (λ _ _. return-Finds (f b))))

find_slot-All :
    (P : Slot → Type 0) (id : String) (ss : List Slot) (s : Slot)
    → All P ss
    → find_slot id ss ≡ some s
    → P s
unfolding find_slot
find_slot-All P id [] s p h = cc
find_slot-All P id (t ∷ ss) s (p, ps) h = elim (Bool-cases (str_eq t.slot_id id)) [
  | inl e ↦ subst P (some_slot (sym (rw e refl) ∙ h)) p
  | inr e ↦ find_slot-All P id ss s ps (sym (rw e refl) ∙ h)
]
  where
    some_slot : {a b : Slot} → ◌≡◌ {A = Option Slot} (some a) (some b) → a ≡ b
    some_slot h = cc

module _ (frozen : Frozen)
    (placed : All (IsPlaced frozen.components frozen.bindings) frozen.slots) where
  bound-Finds :
      (slot : Slot) (component model purpose id : String) (retry : ℕ)
      → find_slot id frozen.slots ≡ some slot
      → (str_eq slot.component_id component
          && slot.retry_index == retry
          && str_eq slot.model_id model
          && str_eq slot.purpose purpose)
        ≡ true
      → Finds (or_raise unknown_model (find_binding model frozen.bindings))
  unfolding or_raise
  bound-Finds slot component model purpose id retry found matches =
      let (c, (b, bound)) =
        find_slot-All (IsPlaced frozen.components frozen.bindings) id frozen.slots slot placed
          found in
      let same = (matches_slot slot component model purpose retry matches).2 in
      let there : find_binding model frozen.bindings ≡ some b =
        subst (λ m. find_binding m frozen.bindings ≡ some b) same bound in
      rw there (return-Finds b)

  prepare-Finds :
      (digests : Digests) (is_expired clock_works : Bool) (a : Arguments)
      → Finds (prepare frozen digests is_expired clock_works a)
  unfolding prepare
  prepare-Finds digests is_expired clock_works a =
      bind-Finds _ _ (identifier-Finds a.attempt_id) (λ id _.
        bind-Finds _ _ (identifier-Finds a.component_id) (λ component _.
          bind-Finds _ _ (identifier-Finds a.model_id) (λ model _.
            bind-Finds _ _ (identifier-Finds a.purpose) (λ purpose _.
              bind-Finds _ _ (natural-Finds a.retry_index) (λ retry _.
                bind-Finds _ _ (text_argument-Finds a.system_prompt) (λ system _.
                  bind-Finds _ _ (text_argument-Finds a.user_payload) (λ payload _.
                    then-Finds _ _ (raise_if-Finds is_expired expired refl) (λ _ _.
                      bind-Finds _ _ (or_raise-Finds not_scheduled (find_slot id frozen.slots) refl)
                        (λ slot found.
                          then-Finds _ _ (ensure-Finds _ metadata_mismatch refl) (λ _ matches.
                            rest-Finds _ clock_works _
                              (λ binding. record {
                                slot = slot;
                                binding = binding;
                                system_prompt = system;
                                user_payload = payload;
                              })
                              (bound-Finds slot component model purpose id retry
                                (or_raise-ok not_scheduled _ slot found)
                                (ensure-ok metadata_mismatch matches))))))))))))

  after_reserve-Finds :
      (request : Request) (c : Component) (s : HostState)
      (o : Result LedgerError Reservation × Ledger)
      → Finds (after_reserve request c s o).0
  unfolding after_reserve
  after_reserve-Finds request c s (ok r, l) = return-Finds _
  after_reserve-Finds request c s (err e, l) = raise-Finds (ledger_refused e) refl

  dispatch-Finds :
      (token : String) (request : Request) (s : HostState) (c : Component)
      → find_component request.slot.component_id frozen.components ≡ some c
      → Finds (dispatch frozen token request s).0
  unfolding dispatch after_claim claim_slot
  dispatch-Finds token request s c found =
      let P = λ (o : Result Error Component × HostState). Finds (after_claim request token o).0 in
      let slot = request.slot in
      let claimed : claim_slot frozen slot s ≡ (
          if contains slot.slot_id s.used_slots
          then (err slot_consumed, s)
          else if leb c.capacity (s.allocated slot.component_id)
          then (err capacity_exhausted, s)
          else (ok c, taken slot s)) =
        rw (found, claim_slot) refl in
      subst P (sym claimed) (
        if_induction P (contains slot.slot_id s.used_slots) (λ used. raise-Finds slot_consumed refl)
          (λ free.
            if_induction P (leb c.capacity (s.allocated slot.component_id))
              (λ full. raise-Finds capacity_exhausted refl)
              (λ room. after_reserve-Finds request c (taken slot s) _)))

  placed_begin-Finds :
      (digests : Digests) (is_expired clock_works : Bool) (token : String) (a : Arguments)
      (s : HostState)
      → Finds (begin frozen digests is_expired clock_works token a s).0
  unfolding begin
  placed_begin-Finds digests is_expired clock_works token a s =
      attempt_induction (λ (o : Result Error Dispatched × HostState). Finds o.0)
        (prepare frozen digests is_expired clock_works a) (dispatch frozen token) s
        (λ e refused x h. prepare-Finds digests is_expired clock_works a x (refused ∙ same_error h))
        (λ request prepared.
          let (right, fresh) =
            prepare-IsFrozenRequest frozen digests is_expired clock_works a request prepared in
          let (id, given, found) = right.attempt in
          let (component, binding) =
            find_slot-All (IsPlaced frozen.components frozen.bindings) id frozen.slots request.slot
              placed found in
          dispatch-Finds token request s component.0 component.1)
    where
      same_error :
          {e x : Error}
          → ◌≡◌ {A = Result Error Dispatched} (err e) (err x)
          → ◌≡◌ {A = Result Error Request} (err e) (err x)
      same_error h = cc

-- On a host that the constructor has made, `execute_attempt` looks up no component and no model that
-- is not there, whatever its arguments and its state.
pub constructed_lookups :
    (payload_sha256 : Value → Option String) (authority : Authority)
    (models components case_routes execution_plan : Value) (frozen : Frozen) (digests : Digests)
    (is_expired clock_works : Bool) (token : String) (a : Arguments) (s : HostState) (e : Error)
    → construct payload_sha256 authority models components case_routes execution_plan ≡ ok frozen
    → (begin frozen digests is_expired clock_works token a s).0 ≡ err e
    → (e ≢ unknown_model) × (e ≢ unknown_component)
constructed_lookups payload_sha256 authority models components case_routes execution_plan frozen
      digests is_expired clock_works token a s e built h =
    let placed =
      (construct-IsPlaced payload_sha256 authority models components case_routes execution_plan
        frozen built).1 in
    let finds = placed_begin-Finds frozen placed digests is_expired clock_works token a s e h in
    (
      λ same. absurd (clash (sym (ap is_key_error same) ∙ finds)),
      λ same. absurd (clash (sym (ap is_key_error same) ∙ finds)),
    )
  where
    clash : ◌≡◌ {A = Bool} true false → ⊥
    clash h = cc
