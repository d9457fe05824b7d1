-- ===== src/Runtime/OptimizeLaws.antt =====
-- What a result of `optimize` says of the calls, the candidates and the selection.
use prompt_performance_engin.Prelude.{
  Bool, true, false, ℕ, zero, suc, ◌+◌, ◌-◌, ◌≤◌, ◌<◌, ◌&&◌, String, Option, some, List, [], ◌∷◌,
  All, map, length, get_elem?, count_if, ltb, leb, if◌then◌else◌, ◌≡◌, arith, refl, ap, subst,
  length-map, sym, ◌∙◌,
}
use prompt_performance_engin.Prelude.Value.{ℤ}
use prompt_performance_engin.Prelude.Text.{is_blank}
use prompt_performance_engin.Prelude.Result.{Result, ok, err}
use prompt_performance_engin.Prelude.Action.{Action, through, ended_eq, lift}
use prompt_performance_engin.Contracts.Request.{OptimizationRequest}
use prompt_performance_engin.Contracts.Strategies.{Strategy, candidate_strategy_plan_lem}
use prompt_performance_engin.Runtime.Adapter.{
  call_length, Error, Adapter, Session, call_model, ModelCall, invalid_artifact,
}
use prompt_performance_engin.Runtime.Candidates.{Host, Candidate, make_candidates}
use prompt_performance_engin.Runtime.Selection.{
  select_position, select_candidate, selector_system_prompt,
}
use prompt_performance_engin.Runtime.Optimize.{
  Artifact, OptimizationResult, Row, rows, chosen, total_repairs, run_plan, optimize_session,
  optimize, result_of, calls_so_far, artifact_of, finish,
}
use prompt_performance_engin.Runtime.CandidateLaws.{IsRepairable, make_candidates_calls}
use prompt_performance_engin.Runtime.Reply.{selection_of}
use prompt_performance_engin.Runtime.Request.{plan_of, repair_allowed, count_of, effective_request}

-- One call for the selector, when it is asked.
abbrev pub selector_calls : ℕ → ℕ
selector_calls candidates = if ltb 1 candidates then 1 else 0

-- A result for which at most one repair of a candidate was allowed, or none.
pub record IsAccounted (may_repair : Bool) (is_invalid : Artifact → Bool) (r : OptimizationResult)
    : Type 0 where
  pub count : (1 ≤ length r.candidates) × (length r.candidates ≤ 5)
  pub calls :
      length r.model_calls
      ≡ length r.candidates + r.repair_count + selector_calls (length r.candidates)
  pub repairs : (r.repair_count ≤ length r.candidates) × (may_repair ≡ false → r.repair_count ≡ 0)
  pub strategies : length r.candidate_strategies ≡ length r.candidates
  pub filled : All (λ p. is_blank p ≡ false) r.candidates
  pub selected :
      (1 ≤ r.selected_index)
      × (get_elem? r.candidates (r.selected_index - 1) ≡ some r.optimized_prompt)
  pub artifact :
      (is_invalid r.artifact ≡ false)
      × (r.artifact.optimized_prompt ≡ r.optimized_prompt)
      × (r.artifact.total_calls ≡ length r.model_calls)
      × (r.artifact.selected_index ≡ r.selected_index)
      × (r.artifact.model_calls ≡ r.model_calls)
      × (r.artifact.candidate_count ≡ length r.candidates)
  pub listed :
      (map (λ (row : Row). row.prompt) r.artifact.candidates ≡ r.candidates)
      × (count_if (λ (row : Row). row.selected) r.artifact.candidates ≡ 1)
      × ((row : Row) × (get_elem? r.artifact.candidates (r.selected_index - 1) ≡ some row)
          × (row.index ≡ r.selected_index)
          × (row.selected ≡ true))

get_elem?-map :
    {A B : Type 0} (f : A → B) (xs : List A) (n : ℕ) (x : A)
    → get_elem? xs n ≡ some x
    → get_elem? (map f xs) n ≡ some (f x)
get_elem?-map f [] n x h = cc
get_elem?-map f (y ∷ ys) zero x h = cc
get_elem?-map f (y ∷ ys) (suc n) x h = get_elem?-map f ys n x h

get_elem?-bound :
    {A : Type 0} (xs : List A) (n : ℕ) (x : A) → get_elem? xs n ≡ some x → n < length xs
get_elem?-bound [] n x h = cc
get_elem?-bound (y ∷ ys) zero x h = omega arith
get_elem?-bound (y ∷ ys) (suc n) x h = omega (arith, get_elem?-bound ys n x h)

chosen-some :
    (cs : List Candidate) (n : ℕ) (c : Candidate) → chosen cs n ≡ ok c → get_elem? cs n ≡ some c
unfolding chosen
chosen-some cs n c h = ground arith

prompts_filled :
    (may_repair : Bool) (cs : List Candidate)
    → All (IsRepairable may_repair) cs
    → All (λ p. is_blank p ≡ false) (map (λ (c : Candidate). c.prompt) cs)
prompts_filled may_repair [] h = tt
prompts_filled may_repair (c ∷ cs) ((filled, _, _), rest) =
    (filled, prompts_filled may_repair cs rest)

repairs_bounded :
    (may_repair : Bool) (cs : List Candidate)
    → All (IsRepairable may_repair) cs
    → (total_repairs cs ≤ length cs) × (may_repair ≡ false → total_repairs cs ≡ 0)
unfolding total_repairs
repairs_bounded may_repair [] h = (omega arith, λ e. refl)
repairs_bounded may_repair (c ∷ cs) ((filled, one, none_), rest) =
    let (bound, zero_) = repairs_bounded may_repair cs rest in
    (omega arith, λ e. omega (arith, none_ e, zero_ e))

-- The rows from an index on mark the selected one, when it is among them.
rows_selected :
    (sha256 : String → String) (selected index : ℕ) (cs : List Candidate) (ss : List Strategy)
    → length cs ≡ length ss
    → count_if (λ (row : Row). row.selected) (rows sha256 selected index cs ss)
      ≡ (if leb index selected && ltb selected (index + length cs) then 1 else 0)
unfolding rows
rows_selected sha256 selected index [] [] h = ground arith
rows_selected sha256 selected index (c ∷ cs) [] h = absurd (omega arith)
rows_selected sha256 selected index [] (s ∷ ss) h = absurd (omega arith)
rows_selected sha256 selected index (c ∷ cs) (s ∷ ss) h =
    ground (arith, rows_selected sha256 selected (suc index) cs ss (omega arith))

rows_prompts :
    (sha256 : String → String) (selected index : ℕ) (cs : List Candidate) (ss : List Strategy)
    → length cs ≡ length ss
    → map (λ (row : Row). row.prompt) (rows sha256 selected index cs ss)
      ≡ map (λ (x : Candidate). x.prompt) cs
unfolding rows
rows_prompts sha256 selected index [] ss h = refl
rows_prompts sha256 selected index (c ∷ cs) [] h = absurd (omega arith)
rows_prompts sha256 selected index (c ∷ cs) (s ∷ ss) h =
    ap (λ xs. c.prompt ∷ xs) (rows_prompts sha256 selected (suc index) cs ss (omega arith))

-- The row at a position is marked and has this number.
abbrev pub RowAt : List Row → ℕ → ℕ → Type 0
RowAt rs n number =
    (row : Row) × (get_elem? rs n ≡ some row) × (row.index ≡ number) × (row.selected ≡ true)

rows_marked :
    (sha256 : String → String) (position index n : ℕ) (cs : List Candidate) (ss : List Strategy)
    (c : Candidate)
    → length cs ≡ length ss
    → get_elem? cs n ≡ some c
    → index + n ≡ position + 1
    → RowAt (rows sha256 (position + 1) index cs ss) n (position + 1)
unfolding rows
rows_marked sha256 position index n [] ss c h found at_ = cc
rows_marked sha256 position index n (x ∷ cs) [] c h found at_ = absurd (omega arith)
rows_marked sha256 position index zero (x ∷ cs) (s ∷ ss) c h found at_ =
    (_, refl, omega (arith, at_), ground (arith, at_))
rows_marked sha256 position index (suc n) (x ∷ cs) (s ∷ ss) c h found at_ =
    rows_marked sha256 position (suc index) n cs ss c (omega arith) found (omega (arith, at_))

ended_by :
    {W : Type 0} (b : Bool) (result r : OptimizationResult) (s t : Session W)
    → ◌≡◌ {A = Result Error OptimizationResult × Session W}
        (if b then err invalid_artifact else ok result, s)
        (ok r, t)
    → (b ≡ false) × (result ≡ r)
ended_by true result r s t h = cc
ended_by false result r s t h = (refl, (ended_eq h).0)

calls_of_branch :
    {W A : Type 0} (b : Bool) (m n : Action (Session W) Error A) (s t : Session W) (a : A)
    → (m s ≡ (ok a, t) → length t.1 ≡ length s.1 + 1)
    → (n s ≡ (ok a, t) → length t.1 ≡ length s.1)
    → (if b then m else n) s ≡ (ok a, t)
    → length t.1 ≡ length s.1 + (if b then 1 else 0)
calls_of_branch true m n s t a p q h = p h
calls_of_branch false m n s t a p q h = omega (arith, q h)

finish_lem :
    {W : Type 0} (is_invalid : Artifact → Bool) (result r : OptimizationResult) (s t : Session W)
    → finish is_invalid result s ≡ (ok r, t)
    → (is_invalid result.artifact ≡ false) × (result ≡ r)
unfolding finish
finish_lem is_invalid result r s t = ended_by (is_invalid result.artifact) result r s t

result_of-IsAccounted :
    (sha256 : String → String) (is_invalid : Artifact → Bool) (may_repair : Bool)
    (calls : List ModelCall) (cs : List Candidate) (plan : List Strategy) (position : ℕ)
    (selector_sha256 : Option String) (c : Candidate)
    → (1 ≤ length plan) × (length plan ≤ 5)
    → (length cs ≡ length plan) × All (IsRepairable may_repair) cs
    → length calls ≡ length plan + total_repairs cs + selector_calls (length cs)
    → get_elem? cs position ≡ some c
    → is_invalid (result_of sha256 calls cs plan position selector_sha256 c).artifact ≡ false
    → IsAccounted may_repair is_invalid (result_of sha256 calls cs plan position selector_sha256 c)
unfolding result_of artifact_of
result_of-IsAccounted sha256 is_invalid may_repair calls cs plan position selector_sha256 c bounds
      (as_many, repairable) counted found valid =
    let prompts = length-map (λ (x : Candidate). x.prompt) cs in
    let (few, none_) = repairs_bounded may_repair cs repairable in
    record {
      count = (omega (arith, prompts, as_many), omega (arith, prompts, as_many));
      calls = omega (arith, counted, as_many, prompts, ap selector_calls prompts);
      repairs = (omega (arith, few, prompts), none_);
      strategies = length-map (λ (x : Strategy). x.name) plan ∙ sym as_many ∙ sym prompts;
      filled = prompts_filled may_repair cs repairable;
      selected = (
        omega arith,
        subst (λ n. get_elem? (map (λ (x : Candidate). x.prompt) cs) n ≡ some c.prompt)
            (omega arith) (get_elem?-map (λ (x : Candidate). x.prompt) cs position c found),
      );
      artifact = (valid, refl, refl, refl, refl, sym prompts);
      listed = (
        rows_prompts sha256 (position + 1) 1 cs plan as_many,
        rows_selected sha256 (position + 1) 1 cs plan as_many
            ∙ ground (arith, get_elem?-bound cs position c found),
        subst (λ n. RowAt (rows sha256 (position + 1) 1 cs plan) n (position + 1)) (omega arith)
            (rows_marked sha256 position 1 position cs plan c as_many found (omega arith)),
      );
    }

plan_bounds :
    (request : OptimizationRequest) (plan : List Strategy)
    → plan_of request ≡ ok plan
    → (1 ≤ length plan) × (length plan ≤ 5)
unfolding plan_of
plan_bounds request plan h =
    let n = count_of request.candidate_count in
    let (as_many, low, high) = (candidate_strategy_plan_lem n plan).0 (ground arith) in
    (omega arith, omega arith)

in_session_of :
    {W : Type 0} (o : Result Error OptimizationResult × Session W) (r : OptimizationResult) (v : W)
    → ◌≡◌ {A = Result Error OptimizationResult × W} (o.0, o.1.0) (ok r, v)
    → o ≡ (ok r, o.1)
in_session_of o r v h = ap (λ x. (x.0, o.1)) h

abbrev calls_in : {W A : Type 0} → Result Error A × Session W → ℕ
calls_in o = length o.1.1

module _ {C W : Type 0} (host : Host C) (adapter : Adapter W) where
  select_candidate_calls :
      (compiled : C) (cs : List Candidate) (plan : List Strategy) (s t : Session W)
      (selection : ℕ × String)
      → select_candidate host adapter compiled cs plan s ≡ (ok selection, t)
      → length t.1 ≡ length s.1 + 1
  unfolding select_candidate
  select_candidate_calls compiled cs plan s t selection h =
      let (r, u, called, h1) =
        through (call_model host.digests adapter "optimization_selector" selector_system_prompt _) _
          s h in
      let (position, v, read, h2) =
        through (lift (selection_of host.parse (length cs) (host.strip r.text))) _ u h1 in
      let longer = call_length host.digests adapter _ _ _ s u r called in
      omega (arith, longer, ap calls_in read, ap calls_in h2)

  select_position_calls :
      (compiled : C) (cs : List Candidate) (plan : List Strategy) (s t : Session W)
      (selection : ℕ × Option String)
      → select_position host adapter compiled cs plan s ≡ (ok selection, t)
      → length t.1 ≡ length s.1 + selector_calls (length cs)
  unfolding select_position
  select_position_calls compiled cs plan s t selection =
      calls_of_branch (ltb 1 (length cs)) _ _ s t selection
        (λ h.
          let (chosen_, u, called, h1) =
            through (select_candidate host adapter compiled cs plan) _ s h in
          omega (arith, select_candidate_calls compiled cs plan s u chosen_ called, ap calls_in h1))
        (λ h. ap calls_in (sym h))

  run_plan-IsAccounted :
      (is_invalid : Artifact → Bool) (may_repair : Bool) (request : OptimizationRequest)
      (compiled : C) (plan : List Strategy) (s t : Session W) (r : OptimizationResult)
      → (1 ≤ length plan) × (length plan ≤ 5)
      → length s.1 ≡ 0
      → run_plan host adapter is_invalid may_repair request compiled plan s ≡ (ok r, t)
      → IsAccounted may_repair is_invalid r
  unfolding run_plan calls_so_far
  run_plan-IsAccounted is_invalid may_repair request compiled plan s t r bounds empty h =
      let (cs, s1, made, h1) =
        through (make_candidates host adapter may_repair _ compiled _ 1 plan) _ s h in
      let (selection, s2, selected, h2) =
        through (select_position host adapter compiled cs plan) _ s1 h1 in
      let (c, s3, picked, h3) = through (lift (chosen cs selection.0)) _ s2 h2 in
      let (as_many, repairable, longer) =
        make_candidates_calls host adapter may_repair _ compiled _ 1 plan s s1 cs made in
      let longer' = select_position_calls compiled cs plan s1 s2 selection selected in
      let kept = ap calls_in picked in
      let (valid, same) = finish_lem is_invalid _ r s3 t h3 in
      subst (IsAccounted may_repair is_invalid) same (
        result_of-IsAccounted host.digests.of_text is_invalid may_repair s3.1 cs plan selection.0
          selection.1 c bounds (as_many, repairable) (omega (arith, empty, longer, longer', kept))
          (chosen-some cs selection.0 c (ap (λ o. o.0) picked)) valid)

  -- What `optimize` returns, whatever the adapter does: one to five candidates, none of them blank;
  -- one model call for each candidate, one for each repair and one for the selector when there are
  -- several; at most one repair of each candidate, and none when `max_repairs` is 0; the optimized
  -- prompt is the selected candidate; the artifact has the same prompt, calls and selection, lists the
  -- prompts of the candidates in order, marks the selected one and no other, and passed
  -- `validate_artifact`.
  pub optimize-IsAccounted :
      (is_invalid : Artifact → Bool) (given : OptimizationRequest) (max_repairs : ℤ)
      (count : Option ℤ) (w v : W) (r : OptimizationResult)
      → optimize host adapter is_invalid given max_repairs count w ≡ (ok r, v)
      → (may_repair : Bool) × (repair_allowed max_repairs ≡ ok may_repair)
        × IsAccounted may_repair is_invalid r
  unfolding optimize optimize_session
  optimize-IsAccounted is_invalid given max_repairs count w v r h =
      let start = optimize_session host adapter is_invalid given max_repairs count (w, []) in
      let (may_repair, s1, allowed, h1) =
        through (lift (repair_allowed max_repairs)) _ (w, []) (in_session_of start r v h) in
      let (request, s2, accepted, h2) = through (lift (effective_request given count)) _ s1 h1 in
      let (compiled, s3, made, h3) = through (lift (host.compile request)) _ s2 h2 in
      let (plan, s4, planned, h4) = through (lift (plan_of request)) _ s3 h3 in
      (
        may_repair,
        ap (λ o. o.0) allowed,
        run_plan-IsAccounted is_invalid may_repair request compiled plan s4 start.1 r
            (plan_bounds request plan (ap (λ o. o.0) planned))
            (omega (
              arith,
              ap calls_in allowed,
              ap calls_in accepted,
              ap calls_in made,
              ap calls_in planned,
            ))
            h4,
      )
