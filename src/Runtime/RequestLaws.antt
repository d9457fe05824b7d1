-- ===== src/Runtime/RequestLaws.antt =====
-- What `optimize` refuses before any model call.
use prompt_performance_engin.Prelude.{
  Bool, Option, none, some, ◌≡◌, refl, subst, ◌⊎◌, inl, inr, true, ◌||◌, Bool-cases, ap, arith,
  false, ℕ, ◌∙◌, ◌*◌, ◌^◌, suc, zero,
}
use prompt_performance_engin.Prelude.Value.{ℤ, Value, Items, Fields}
use prompt_performance_engin.Prelude.Result.{Result, ok, err, last_of_two, ok_eq, ensure, ensure-ok}
use prompt_performance_engin.Contracts.Request.{
  OptimizationRequest, validate, Error as RequestError,
}
use prompt_performance_engin.Runtime.Request.{
  refusing, effective_request, with_count, check_conflict, repair_allowed, bool_int, equals_int,
  int_eq,
}
use prompt_performance_engin.Runtime.Adapter.{
  Adapter, Error, count_conflict, unhashable_count, bad_max_repairs, request_refused,
}
use prompt_performance_engin.Runtime.Candidates.{Host}
use prompt_performance_engin.Runtime.Optimize.{Artifact, optimize, optimize_session}

refusing-ok : (o : Result RequestError Unit) (t : Unit) → refusing o ≡ ok t → o ≡ ok tt
unfolding refusing
refusing-ok (ok t) u h = refl
refusing-ok (err e) u h = cc

-- The request given, or the same with the count that was asked for.
abbrev pub requested : OptimizationRequest → Option ℤ → OptimizationRequest
requested given none = given
requested given (some n) = with_count n given

-- The value is equal to the integer, as Python compares them; `Value.real c k` is c / 10 ^ k.
pub data IsCount : Value → ℤ → Type 0 where
  integer : (n : ℤ) → IsCount (Value.int n) n
  set : IsCount (Value.bool true) (ℤ.pos 1)
  unset : IsCount (Value.bool false) (ℤ.pos 0)
  decimal : (c k m : ℕ) → c ≡ m * 10 ^ k → IsCount (Value.real (ℤ.pos c) k) (ℤ.pos m)
  below_zero :
      (c k m : ℕ) → suc c ≡ suc m * 10 ^ k → IsCount (Value.real (ℤ.negsuc c) k) (ℤ.negsuc m)

-- What Python has no hash of.
pub data IsCollection : Value → Type 0 where
  sequence : (items : Items) → IsCollection (Value.arr items)
  mapping : (fields : Fields) → IsCollection (Value.obj fields)

-- The given count is 1 or the one asked for.
abbrev pub Agrees : OptimizationRequest → Option ℤ → Type 0
Agrees given none = Unit
Agrees given (some n) = IsCount given.candidate_count (ℤ.pos 1) ⊎ IsCount given.candidate_count n

int_eq-eq : (m n : ℤ) → int_eq m n ≡ true → m ≡ n
unfolding int_eq
int_eq-eq (ℤ.pos m) (ℤ.pos n) h = ap ℤ.pos (ground (arith, h))
int_eq-eq (ℤ.negsuc m) (ℤ.negsuc n) h = ap ℤ.negsuc (ground (arith, h))
int_eq-eq (ℤ.pos m) (ℤ.negsuc n) h = cc
int_eq-eq (ℤ.negsuc m) (ℤ.pos n) h = cc

bool_count : (b : Bool) (n : ℤ) → bool_int b ≡ n → IsCount (Value.bool b) n
unfolding bool_int
bool_count true n e = subst (IsCount (Value.bool true)) e set
bool_count false n e = subst (IsCount (Value.bool false)) e unset

equals_int-IsCount : (v : Value) (n : ℤ) → equals_int v n ≡ true → IsCount v n
unfolding equals_int
equals_int-IsCount (Value.int m) n h = subst (IsCount (Value.int m)) (int_eq-eq m n h) (integer m)
equals_int-IsCount (Value.bool b) n h = bool_count b n (int_eq-eq (bool_int b) n h)
equals_int-IsCount (Value.real (ℤ.pos c) k) (ℤ.pos m) h = decimal c k m (ground (arith, h))
equals_int-IsCount (Value.real (ℤ.negsuc c) k) (ℤ.negsuc m) h = below_zero c k m (ground (arith, h))
equals_int-IsCount _ _ h = cc

either_true : (a b : Bool) → (a || b) ≡ true → (a ≡ true) ⊎ (b ≡ true)
either_true true b h = inl refl
either_true false b h = inr h

one_of_two :
    (v : Value) (n : ℤ)
    → (equals_int v (ℤ.pos 1) || equals_int v n) ≡ true
    → IsCount v (ℤ.pos 1) ⊎ IsCount v n
one_of_two v n h = elim (either_true (equals_int v (ℤ.pos 1)) (equals_int v n) h) [
  | inl e ↦ inl (equals_int-IsCount v (ℤ.pos 1) e)
  | inr e ↦ inr (equals_int-IsCount v n e)
]

-- Without a hash there is no test; with one, the test is for the two counts.
check_conflict-scalar :
    (v : Value) (n : ℤ)
    → ¬ (IsCollection v)
    → check_conflict v n ≡ ensure (equals_int v (ℤ.pos 1) || equals_int v n) count_conflict
unfolding check_conflict
check_conflict-scalar (Value.arr items) n h = absurd (h (sequence items))
check_conflict-scalar (Value.obj fields) n h = absurd (h (mapping fields))
check_conflict-scalar _ n h = refl

check_conflict-collection :
    (v : Value) (n : ℤ) → IsCollection v → check_conflict v n ≡ err unhashable_count
unfolding check_conflict
check_conflict-collection v n (sequence items) = refl
check_conflict-collection v n (mapping fields) = refl

check_conflict-agreed :
    (v : Value) (n : ℤ) → check_conflict v n ≡ ok tt → IsCount v (ℤ.pos 1) ⊎ IsCount v n
unfolding check_conflict
check_conflict-agreed (Value.arr items) n h = cc
check_conflict-agreed (Value.obj fields) n h = cc
check_conflict-agreed Value.null n h = one_of_two Value.null n (ensure-ok count_conflict h)
check_conflict-agreed (Value.bool b) n h = one_of_two (Value.bool b) n (ensure-ok count_conflict h)
check_conflict-agreed (Value.int m) n h = one_of_two (Value.int m) n (ensure-ok count_conflict h)
check_conflict-agreed (Value.real c k) n h =
    one_of_two (Value.real c k) n (ensure-ok count_conflict h)
check_conflict-agreed (Value.str s) n h = one_of_two (Value.str s) n (ensure-ok count_conflict h)
check_conflict-agreed Value.nonfinite n h =
    one_of_two Value.nonfinite n (ensure-ok count_conflict h)
check_conflict-agreed Value.other n h = one_of_two Value.other n (ensure-ok count_conflict h)

check_conflict-refused :
    (v : Value) (n : ℤ)
    → ¬ (IsCollection v)
    → ¬ (IsCount v (ℤ.pos 1))
    → ¬ (IsCount v n)
    → check_conflict v n ≡ err count_conflict
check_conflict-refused v n scalar other differs =
    elim (Bool-cases (equals_int v (ℤ.pos 1) || equals_int v n)) [
      | inl e ↦ absurd (elim (one_of_two v n e) [ inl c ↦ other c | inr c ↦ differs c ])
      | inr e ↦ check_conflict-scalar v n scalar ∙ ap (λ b. ensure b count_conflict) e
    ]

abbrev Accepted : OptimizationRequest → Option ℤ → OptimizationRequest → Type 0
Accepted given count request =
    (request ≡ requested given count) × (validate request ≡ ok tt) × Agrees given count

-- The request that is optimized has passed `validate`: it is the one given, or the one given with
-- the count that was asked for; the given count then equals 1 or the one that was asked for.
pub effective_request_lem :
    (given request : OptimizationRequest) (count : Option ℤ)
    → effective_request given count ≡ ok request
    → (request ≡ requested given count) × (validate request ≡ ok tt) × Agrees given count
unfolding effective_request
effective_request_lem given request none h =
    let (same, t, valid) = last_of_two (refusing (validate given)) _ request h in
    subst (Accepted given none) (ok_eq same) (refl, refusing-ok (validate given) t valid, tt)
effective_request_lem given request (some n) h =
    let (h1, t, valid) = last_of_two (refusing (validate (with_count n given))) _ request h in
    let (same, u, agreed) = last_of_two (check_conflict given.candidate_count n) _ request h1 in
    subst (Accepted given (some n)) (ok_eq same) (
      refl,
      refusing-ok (validate (with_count n given)) t valid,
      check_conflict-agreed given.candidate_count n agreed,
    )

abbrev IsSwitch : ℤ → Type 0
IsSwitch n = (n ≡ ℤ.pos 0) ⊎ (n ≡ ℤ.pos 1)

-- What is wrong with the arguments of `optimize`, with the error for it.
pub data IsRefused (given : OptimizationRequest) (repairs : ℤ) (count : Option ℤ)
    : Error → Type 0 where
  many_repairs :
      ¬ (repairs ≡ ℤ.pos 0) → ¬ (repairs ≡ ℤ.pos 1) → IsRefused given repairs count bad_max_repairs
  invalid :
      (e : RequestError)
      → IsSwitch repairs
      → validate (requested given count) ≡ err e
      → IsRefused given repairs count (request_refused e)
  conflict :
      (n : ℤ)
      → IsSwitch repairs
      → count ≡ some n
      → validate (with_count n given) ≡ ok tt
      → ¬ (IsCollection given.candidate_count)
      → ¬ (IsCount given.candidate_count (ℤ.pos 1))
      → ¬ (IsCount given.candidate_count n)
      → IsRefused given repairs count count_conflict
  unhashable :
      (n : ℤ)
      → IsSwitch repairs
      → count ≡ some n
      → validate (with_count n given) ≡ ok tt
      → IsCollection given.candidate_count
      → IsRefused given repairs count unhashable_count

repair_allowed-other :
    (n : ℤ) → ¬ (n ≡ ℤ.pos 0) → ¬ (n ≡ ℤ.pos 1) → repair_allowed n ≡ err bad_max_repairs
unfolding repair_allowed
repair_allowed-other (ℤ.pos zero) h k = absurd (h refl)
repair_allowed-other (ℤ.pos (suc zero)) h k = absurd (k refl)
repair_allowed-other (ℤ.pos (suc (suc n))) h k = refl
repair_allowed-other (ℤ.negsuc n) h k = refl

repair_allowed-switch : (n : ℤ) → IsSwitch n → (b : Bool) × (repair_allowed n ≡ ok b)
unfolding repair_allowed
repair_allowed-switch n (inl e) = (false, ap repair_allowed e)
repair_allowed-switch n (inr e) = (true, ap repair_allowed e)

effective_request-invalid :
    (given : OptimizationRequest) (count : Option ℤ) (e : RequestError)
    → validate (requested given count) ≡ err e
    → effective_request given count ≡ err (request_refused e)
unfolding effective_request refusing
effective_request-invalid given none e h = rw h refl
effective_request-invalid given (some n) e h = rw h refl

effective_request-conflict :
    (given : OptimizationRequest) (count : Option ℤ) (n : ℤ) (e : Error)
    → count ≡ some n
    → validate (with_count n given) ≡ ok tt
    → check_conflict given.candidate_count n ≡ err e
    → effective_request given count ≡ err e
unfolding effective_request refusing
effective_request-conflict given count n e asked valid h = rw (asked, valid, h) refl

module _ {C W : Type 0} (host : Host C) (adapter : Adapter W) (is_invalid : Artifact → Bool) where
  optimize-bad_request :
      (given : OptimizationRequest) (max_repairs : ℤ) (count : Option ℤ) (w : W) (e : Error)
      → IsSwitch max_repairs
      → effective_request given count ≡ err e
      → optimize host adapter is_invalid given max_repairs count w ≡ (err e, w)
  unfolding optimize optimize_session
  optimize-bad_request given max_repairs count w e switch h =
      let (b, allowed) = repair_allowed-switch max_repairs switch in rw (allowed, h) refl

  -- A `max_repairs` other than 0 and 1 is refused, and so is a request that is not valid or conflicts
  -- with the count asked for, each with its own error; the adapter is not called.
  pub optimize_refuses :
      (given : OptimizationRequest) (max_repairs : ℤ) (count : Option ℤ) (w : W) (e : Error)
      → IsRefused given max_repairs count e
      → optimize host adapter is_invalid given max_repairs count w ≡ (err e, w)
  unfolding optimize optimize_session
  optimize_refuses given max_repairs count w e (many_repairs h k) =
      rw (repair_allowed-other max_repairs h k) refl
  optimize_refuses given max_repairs count w e (invalid cause switch h) =
      optimize-bad_request given max_repairs count w (request_refused cause) switch
        (effective_request-invalid given count cause h)
  optimize_refuses given max_repairs count w e
        (conflict n switch asked valid scalar other differs) =
      optimize-bad_request given max_repairs count w count_conflict switch (
        effective_request-conflict given count n count_conflict asked valid
          (check_conflict-refused given.candidate_count n scalar other differs))
  optimize_refuses given max_repairs count w e (unhashable n switch asked valid collection) =
      optimize-bad_request given max_repairs count w unhashable_count switch (
        effective_request-conflict given count n unhashable_count asked valid
          (check_conflict-collection given.candidate_count n collection))
