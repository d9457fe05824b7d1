-- ===== src/Host/Calls.antt =====
-- Which calls reach the runner: what `execute_attempt` of
-- src/prompt_performance_engine/frontier_host.py has checked by then.
use prompt_performance_engin.Budget.Amounts.{Error as LedgerError}
use prompt_performance_engin.Prelude.Result.{
  ok, ensure, raise_if, returned_by, last_of_two, ok_eq, ensure-ok, raise_if-ok, Result,
  attempt_induction, err,
}
use prompt_performance_engin.Prelude.{
  none, some, Bool, Option, String, ℕ, ◌≡◌, ap, arith, false, subst, ◌∙◌, str_eq, sym, ◌&&◌, true,
  ◌==◌, eq_iff, contains, Option-cases, inl, ◌<◌, inr, if◌then◌else◌, leb, if_induction, refl,
}
use prompt_performance_engin.Host.Attempt.{
  identifier, natural, or_raise, prepare, text_argument, Digests, Error, Arguments, Request,
  expired, not_scheduled, metadata_mismatch, text_mismatch, unknown_model, bad_clock, Dispatched,
  after_reserve, begin, dispatch, after_claim, claim_slot, unknown_component, slot_consumed,
  capacity_exhausted,
}
use prompt_performance_engin.Host.Plan.{
  Frozen, find_slot, find_binding, Slot, HostState, Component, find_component,
}
use prompt_performance_engin.Prelude.Value.{Value, ℤ}
use prompt_performance_engin.Host.Steps.{attempt_of}
use prompt_performance_engin.Host.BeginLaws.{taken}
use prompt_performance_engin.Budget.Ledger.{Reservation, Ledger}

-- The arguments are those of the frozen slot, and its texts and its model are those of the request.
pub record IsFrozenRequest (frozen : Frozen) (digests : Digests) (a : Arguments) (r : Request)
    : Type 0 where
  pub attempt :
      (id : String) × (a.attempt_id ≡ Value.str id) × (find_slot id frozen.slots ≡ some r.slot)
  pub component : a.component_id ≡ Value.str r.slot.component_id
  pub retry : a.retry_index ≡ Value.int (ℤ.pos r.slot.retry_index)
  pub model : a.model_id ≡ Value.str r.slot.model_id
  pub purpose : a.purpose ≡ Value.str r.slot.purpose
  pub system : a.system_prompt ≡ Value.str r.system_prompt
  pub system_digest : digests.text_sha256 r.system_prompt ≡ r.slot.system_prompt_sha256
  pub payload : a.user_payload ≡ Value.str r.user_payload
  pub payload_digest : digests.text_sha256 r.user_payload ≡ r.slot.user_payload_sha256
  pub binding : find_binding r.slot.model_id frozen.bindings ≡ some r.binding

pub or_raise-ok : {A : Type 0} (e : Error) (o : Option A) (a : A) → or_raise e o ≡ ok a → o ≡ some a
unfolding or_raise
or_raise-ok e none a h = cc
or_raise-ok e (some b) a h = ap (λ x. some x) (ok_eq h)

identifier-str : (v : Value) (s : String) → identifier v ≡ ok s → v ≡ Value.str s
unfolding identifier
identifier-str (Value.str t) s h = ground (arith, h)
identifier-str _ s h = cc

natural-int : (v : Value) (n : ℕ) → natural v ≡ ok n → v ≡ Value.int (ℤ.pos n)
unfolding natural
natural-int (Value.int (ℤ.pos m)) n h = ap (λ k. Value.int (ℤ.pos k)) (ok_eq h)
natural-int _ n h = cc

text_argument-str : (v : Value) (s : String) → text_argument v ≡ ok s → v ≡ Value.str s
unfolding text_argument
text_argument-str (Value.str t) s h = ap (λ x. Value.str x) (ok_eq h)
text_argument-str _ s h = cc

pub matches_slot :
    (slot : Slot) (component model purpose : String) (retry : ℕ)
    → (str_eq slot.component_id component
        && slot.retry_index == retry
        && str_eq slot.model_id model
        && str_eq slot.purpose purpose)
      ≡ true
    → (slot.component_id ≡ component)
      × (slot.retry_index ≡ retry)
      × (slot.model_id ≡ model)
      × (slot.purpose ≡ purpose)
matches_slot slot component model purpose retry h = (
  ground (arith, h, eq_iff slot.component_id component),
  ground (arith, h),
  ground (arith, h, eq_iff slot.model_id model),
  ground (arith, h, eq_iff slot.purpose purpose),
)

matches_texts :
    (slot : Slot) (system payload : String)
    → (str_eq slot.system_prompt_sha256 system && str_eq slot.user_payload_sha256 payload) ≡ true
    → (slot.system_prompt_sha256 ≡ system) × (slot.user_payload_sha256 ≡ payload)
matches_texts slot system payload h = (
  ground (arith, h, eq_iff slot.system_prompt_sha256 system),
  ground (arith, h, eq_iff slot.user_payload_sha256 payload),
)

module _ (frozen : Frozen) (digests : Digests) (a : Arguments) (r : Request)
    (id component model purpose : String) (retry : ℕ) where
  matching-IsFrozenRequest :
      a.attempt_id ≡ Value.str id
      → a.component_id ≡ Value.str component
      → a.model_id ≡ Value.str model
      → a.purpose ≡ Value.str purpose
      → a.retry_index ≡ Value.int (ℤ.pos retry)
      → find_slot id frozen.slots ≡ some r.slot
      → (r.slot.component_id ≡ component)
        × (r.slot.retry_index ≡ retry)
        × (r.slot.model_id ≡ model)
        × (r.slot.purpose ≡ purpose)
      → (r.slot.system_prompt_sha256 ≡ digests.text_sha256 r.system_prompt)
        × (r.slot.user_payload_sha256 ≡ digests.text_sha256 r.user_payload)
      → a.system_prompt ≡ Value.str r.system_prompt
      → a.user_payload ≡ Value.str r.user_payload
      → find_binding model frozen.bindings ≡ some r.binding
      → IsFrozenRequest frozen digests a r
  matching-IsFrozenRequest ea ec em ep er found (hc, hr, hm, hp) (hs, hu) es eu bound = record {
    attempt = (id, ea, found);
    component = ec ∙ ap (λ x. Value.str x) (sym hc);
    retry = er ∙ ap (λ n. Value.int (ℤ.pos n)) (sym hr);
    model = em ∙ ap (λ x. Value.str x) (sym hm);
    purpose = ep ∙ ap (λ x. Value.str x) (sym hp);
    system = es;
    system_digest = sym hs;
    payload = eu;
    payload_digest = sym hu;
    binding = subst (λ x. find_binding x frozen.bindings ≡ some r.binding) (sym hm) bound;
  }

pub prepare-IsFrozenRequest :
    (frozen : Frozen) (digests : Digests) (is_expired clock_works : Bool) (a : Arguments)
    (r : Request)
    → prepare frozen digests is_expired clock_works a ≡ ok r
    → IsFrozenRequest frozen digests a r × (is_expired ≡ false)
unfolding prepare
prepare-IsFrozenRequest frozen digests is_expired clock_works a r h =
    let (id, h1, e1) = returned_by (identifier a.attempt_id) _ r h in
    let (component, h2, e2) = returned_by (identifier a.component_id) _ r h1 in
    let (model, h3, e3) = returned_by (identifier a.model_id) _ r h2 in
    let (purpose, h4, e4) = returned_by (identifier a.purpose) _ r h3 in
    let (retry, h5, e5) = returned_by (natural a.retry_index) _ r h4 in
    let (system, h6, e6) = returned_by (text_argument a.system_prompt) _ r h5 in
    let (payload, h7, e7) = returned_by (text_argument a.user_payload) _ r h6 in
    let (h8, t8, e8) = last_of_two (raise_if is_expired expired) _ r h7 in
    let (slot, h9, e9) = returned_by (or_raise not_scheduled (find_slot id frozen.slots)) _ r h8 in
    let (h10, t10, e10) = last_of_two (ensure _ metadata_mismatch) _ r h9 in
    let (h11, t11, e11) = last_of_two (ensure _ text_mismatch) _ r h10 in
    let (binding, h12, e12) =
      returned_by (or_raise unknown_model (find_binding model frozen.bindings)) _ r h11 in
    let (h13, t13, e13) = last_of_two (ensure clock_works bad_clock) _ r h12 in
    let request : Request = record {
      slot = slot;
      binding = binding;
      system_prompt = system;
      user_payload = payload;
    } in
    subst (λ (r : Request). IsFrozenRequest frozen digests a r × (is_expired ≡ false)) (ok_eq h13)
      (
        matching-IsFrozenRequest frozen digests a request id component model purpose retry
            (identifier-str a.attempt_id id e1) (identifier-str a.component_id component e2)
            (identifier-str a.model_id model e3) (identifier-str a.purpose purpose e4)
            (natural-int a.retry_index retry e5) (or_raise-ok not_scheduled _ slot e9)
            (matches_slot slot component model purpose retry (ensure-ok metadata_mismatch e10))
            (matches_texts slot (digests.text_sha256 system) (digests.text_sha256 payload)
              (ensure-ok text_mismatch e11))
            (text_argument-str a.system_prompt system e6)
            (text_argument-str a.user_payload payload e7) (or_raise-ok unknown_model _ binding e12),
        raise_if-ok expired e8,
      )

-- The slot had no attempt before, and its component had room for one more.
abbrev pub IsTaken : Frozen → HostState → Dispatched → Type 0
IsTaken frozen s d =
    (find_component d.request.slot.component_id frozen.components ≡ some d.component)
    × (contains (attempt_of d) s.used_slots ≡ false)
    × (s.allocated d.request.slot.component_id < d.component.capacity)

dispatched_eq : {a b : Dispatched} → ◌≡◌ {A = Result Error Dispatched} (ok a) (ok b) → a ≡ b
dispatched_eq h = ok_eq h

after_reserve-IsTaken :
    (frozen : Frozen) (s t : HostState) (request : Request) (c : Component)
    (o : Result LedgerError Reservation × Ledger) (d : Dispatched)
    → find_component request.slot.component_id frozen.components ≡ some c
    → contains request.slot.slot_id s.used_slots ≡ false
    → leb c.capacity (s.allocated request.slot.component_id) ≡ false
    → (after_reserve request c t o).0 ≡ ok d
    → (d.request ≡ request) × IsTaken frozen s d
unfolding after_reserve
after_reserve-IsTaken frozen s t request c (ok r, l) d found free room h =
    subst (λ (d : Dispatched). (d.request ≡ request) × IsTaken frozen s d) (dispatched_eq h)
      (refl, (found, free, ground (arith, room)))
after_reserve-IsTaken frozen s t request c (err e, l) d found free room h = cc

dispatch-IsTaken :
    (frozen : Frozen) (token : String) (request : Request) (s : HostState) (d : Dispatched)
    → (dispatch frozen token request s).0 ≡ ok d
    → (d.request ≡ request) × IsTaken frozen s d
unfolding dispatch after_claim claim_slot
dispatch-IsTaken frozen token request s d =
    let slot = request.slot in
    let P = λ (o : Result Error Component × HostState).
      (after_claim request token o).0 ≡ ok d → (d.request ≡ request) × IsTaken frozen s d in
    elim (Option-cases (find_component slot.component_id frozen.components)) [
      | inl e ↦
          let claimed : claim_slot frozen slot s ≡ (
              if contains slot.slot_id s.used_slots
              then (err slot_consumed, s)
              else (err unknown_component, s)) =
            rw (e, claim_slot) refl in
          subst P (sym claimed)
            (if_induction P (contains slot.slot_id s.used_slots) (λ used h. cc) (λ free h. cc))
      | inr (c, found) ↦
          let claimed : claim_slot frozen slot s ≡ (
              if contains slot.slot_id s.used_slots
              then (err slot_consumed, s)
              else if leb c.capacity (s.allocated slot.component_id)
              then (err capacity_exhausted, s)
              else (ok c, taken slot s)) =
            rw (found, claim_slot) refl in
          subst P (sym claimed) (
            if_induction P (contains slot.slot_id s.used_slots) (λ used h. cc)
              (λ free.
                if_induction P (leb c.capacity (s.allocated slot.component_id)) (λ full h. cc)
                  (λ room.
                    after_reserve-IsTaken frozen s (taken slot s) request c _ d found free room)))
    ]

-- A call reaches the runner only before the evidence expires, with the arguments of a slot of the
-- frozen plan, texts with the digests of the slot, and the binding of the slot's model; the slot had
-- no attempt before, and its component had room for one more.
pub begin_authorized :
    (frozen : Frozen) (digests : Digests) (is_expired clock_works : Bool) (token : String)
    (a : Arguments) (s : HostState) (d : Dispatched)
    → (begin frozen digests is_expired clock_works token a s).0 ≡ ok d
    → IsFrozenRequest frozen digests a d.request × (is_expired ≡ false) × IsTaken frozen s d
unfolding begin
begin_authorized frozen digests is_expired clock_works token a s d =
    attempt_induction
      (λ (o : Result Error Dispatched × HostState).
        o.0 ≡ ok d
        → IsFrozenRequest frozen digests a d.request × (is_expired ≡ false) × IsTaken frozen s d)
      (prepare frozen digests is_expired clock_works a) (dispatch frozen token) s (λ e _ h. cc)
      (λ request prepared h.
        let (same, taken) = dispatch-IsTaken frozen token request s d h in
        let (right, fresh) =
          prepare-IsFrozenRequest frozen digests is_expired clock_works a request prepared in
        (subst (λ r. IsFrozenRequest frozen digests a r) (sym same) right, fresh, taken))
