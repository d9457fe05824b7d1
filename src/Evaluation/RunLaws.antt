-- ===== src/Evaluation/RunLaws.antt =====
-- What a case record that `evaluate_case` returns says.
use prompt_performance_engin.Prelude.{
  ℕ, ◌≤◌, ◌≡◌, Bool, true, false, ◌&&◌, not, List, [], ◌∷◌, map, length, refl, arith, Option,
  String, All, subst, ap, ltb, if◌then◌else◌, ap₂, ◌⊎◌, inl, inr,
}
use prompt_performance_engin.Evaluation.Case.{
  EvaluationCase, validate_decision, JudgeDecision, too_few_judges, validate_case, is_bool,
  is_filled, is_object, bad_winner, empty_reason, bad_fatal_flaw, bad_metadata,
}
use prompt_performance_engin.Evaluation.Run.{
  CaseRecord, JudgeRecord, Judge, ask, Judged, decide, verdict_of, case_record, evaluate_case,
  evaluate_outputs, Executor, optimized_is_a, execute_prompt,
}
use prompt_performance_engin.Evaluation.Judging.{
  loss, tie, aggregate_judges, IsWinner, winner_cases,
}
use prompt_performance_engin.Prelude.Action.{◌>>=◌, for_each, through, lift, ended_eq, pure}
use prompt_performance_engin.Prelude.Result.{ok, raise_if, last_of_two, ensure, ensure-ok}
use prompt_performance_engin.Evaluation.HardChecks.{Host, HardChecks, hard_checks}
use prompt_performance_engin.Prelude.Value.{ℤ, Value, Fields, obj}
use prompt_performance_engin.Prelude.Text.{is_blank}

abbrev pub decisions_of : List JudgeRecord → List JudgeDecision
decisions_of = map (λ (r : JudgeRecord). r.decision)

-- A decision as `JudgeDecision` declares it: one of three winners, a reason that is not blank, two
-- flags that are booleans, and metadata that are an object.
abbrev pub IsDecision : JudgeDecision → Type 0
IsDecision d =
    ((d.winner ≡ Value.str "A") ⊎ (d.winner ≡ Value.str "B") ⊎ (d.winner ≡ Value.str "tie"))
    × ((reason : String) × (d.reason ≡ Value.str reason) × (is_blank reason ≡ false))
    × ((a : Bool) × (d.fatal_flaw_a ≡ Value.bool a))
    × ((b : Bool) × (d.fatal_flaw_b ≡ Value.bool b))
    × ((fs : Fields) × (d.metadata ≡ obj fs))

abbrev pub HasDecision : JudgeRecord → Type 0
HasDecision r = IsDecision r.decision

abbrev pub judges_of : List JudgeRecord → List String
judges_of = map (λ (r : JudgeRecord). r.judge)

-- A record of a case on which the judges `names` were at hand. `critical`: the optimized output alone failed.
-- `both`: both outputs failed. `judged`: the optimized output passed.
pub record IsConsistent (names : List String) (r : CaseRecord) : Type 0 where
  pub flag : r.critical_regression ≡ (r.original_checks.passed && not r.optimized_checks.passed)
  pub critical :
      r.critical_regression ≡ true
      → (r.outcome ≡ loss) × (r.fatal_flaw ≡ false) × (r.judge_decisions ≡ [])
  pub both :
      r.original_checks.passed ≡ false
      → r.optimized_checks.passed ≡ false
      → (r.outcome ≡ tie) × (r.fatal_flaw ≡ false) × (r.judge_decisions ≡ [])
  pub judged :
      r.optimized_checks.passed ≡ true
      → (judges_of r.judge_decisions ≡ names)
        × All HasDecision r.judge_decisions
        × (aggregate_judges (decisions_of r.judge_decisions) r.optimized_is_a
            ≡ (r.outcome, r.fatal_flaw))

winner_named :
    (w : Value) → IsWinner w → (w ≡ Value.str "A") ⊎ (w ≡ Value.str "B") ⊎ (w ≡ Value.str "tie")
winner_named (Value.str s) h = elim (winner_cases s h) [
  | inl e ↦ inl (ap Value.str e)
  | inr (inl e) ↦ inr (inl (ap Value.str e))
  | inr (inr e) ↦ inr (inr (ap Value.str e))
]
winner_named w h = cc

reason_filled :
    (v : Value)
    → is_filled v ≡ true
    → (reason : String) × (v ≡ Value.str reason) × (is_blank reason ≡ false)
reason_filled (Value.str s) h = (s, refl, ground (arith, h))
reason_filled _ h = cc

flag_bool : (v : Value) → is_bool v ≡ true → (b : Bool) × (v ≡ Value.bool b)
flag_bool (Value.bool b) h = (b, refl)
flag_bool _ h = cc

metadata_object : (v : Value) → is_object v ≡ true → (fs : Fields) × (v ≡ obj fs)
metadata_object (obj fs) h = (fs, refl)
metadata_object _ h = cc

validate_decision-IsDecision : (d : JudgeDecision) → validate_decision d ≡ ok tt → IsDecision d
unfolding validate_decision
validate_decision-IsDecision d h =
    let (h1, t1, e1) = last_of_two (ensure _ bad_winner) _ tt h in
    let (h2, t2, e2) = last_of_two (ensure (is_filled d.reason) empty_reason) _ tt h1 in
    let (h3, t3, e3) =
      last_of_two (ensure (is_bool d.fatal_flaw_a && is_bool d.fatal_flaw_b) bad_fatal_flaw) _ tt
        h2 in
    let flags = ensure-ok bad_fatal_flaw e3 in
    (
      winner_named d.winner (ensure-ok bad_winner e1),
      reason_filled d.reason (ensure-ok empty_reason e2),
      flag_bool d.fatal_flaw_a (ground (arith, flags)),
      flag_bool d.fatal_flaw_b (ground (arith, flags)),
      metadata_object d.metadata (ensure-ok bad_metadata h3),
    )

-- What `decide` returns, by the two hard checks.
abbrev Decided : List String → Bool → Bool → Bool → Judged → Type 0
Decided n original_passed optimized_passed is_a d =
    ((original_passed && not optimized_passed) ≡ true
      → (d.outcome ≡ loss) × (d.fatal_flaw ≡ false) × (d.judge_decisions ≡ []))
    × (original_passed ≡ false
        → optimized_passed ≡ false
        → (d.outcome ≡ tie) × (d.fatal_flaw ≡ false) × (d.judge_decisions ≡ []))
    × (optimized_passed ≡ true
        → (judges_of d.judge_decisions ≡ n)
          × All HasDecision d.judge_decisions
          × (aggregate_judges (decisions_of d.judge_decisions) is_a ≡ (d.outcome, d.fatal_flaw)))

not_both : (o : Bool) → (o && not true) ≡ true → ⊥
not_both o h = ground arith

abbrev pub names_of : {W : Type 0} → List (Judge W) → List String
names_of = map (λ j. j.name)

module _ {W : Type 0} (c : EvaluationCase) (a b : String) where
  ask-HasDecision :
      (j : Judge W) (w v : W) (r : JudgeRecord)
      → ask c a b j w ≡ (ok r, v)
      → (r.judge ≡ j.name) × HasDecision r
  unfolding ask
  ask-HasDecision j w v r h =
      let (d, u, answered, rest) = through (j.judge c a b) _ w h in
      let (done, u', valid, made) = through (lift (validate_decision d)) _ u rest in
      subst (λ (r : JudgeRecord). (r.judge ≡ j.name) × HasDecision r) (ended_eq made).0
        (refl, validate_decision-IsDecision d (ap (λ o. o.0) valid))

  asked :
      (judges : List (Judge W)) (w v : W) (rs : List JudgeRecord)
      → for_each (ask c a b) judges w ≡ (ok rs, v)
      → (judges_of rs ≡ names_of judges) × All HasDecision rs
  asked [] w v rs h =
      subst (λ xs. (judges_of xs ≡ []) × All HasDecision xs) (ended_eq h).0 (refl, tt)
  asked (j ∷ js) w v rs h =
      let (r, u, first, rest) = through (ask c a b j) _ w h in
      let (rs', u', others, made) = through (for_each (ask c a b) js) _ u rest in
      let (same, valid) = asked js u u' rs' others in
      let (named, decided) = ask-HasDecision j w u r first in
      subst (λ xs. (judges_of xs ≡ j.name ∷ names_of js) × All HasDecision xs) (ended_eq made).0
        (ap₂ ◌∷◌ named same, (decided, valid))

  judged_by :
      (judges : List (Judge W)) (is_a o : Bool) (w v : W) (d : Judged)
      → (for_each (ask c a b) judges >>= λ rs. pure (verdict_of is_a rs)) w ≡ (ok d, v)
      → Decided (names_of judges) o true is_a d
  unfolding verdict_of
  judged_by judges is_a o w v d h =
      let (rs, u, answered, made) = through (for_each (ask c a b) judges) _ w h in
      let (same, valid) = asked judges w u rs answered in
      subst (Decided (names_of judges) o true is_a) (ended_eq made).0
        ((λ e. absurd (not_both o e)), (λ p q. cc), (λ p. (same, valid, refl)))

  decide-Decided :
      (judges : List (Judge W)) (o p is_a : Bool) (w v : W) (d : Judged)
      → decide c judges o p is_a a b w ≡ (ok d, v)
      → Decided (names_of judges) o p is_a d
  unfolding decide
  decide-Decided judges true false is_a w v d h =
      subst (Decided (names_of judges) true false is_a) (ended_eq h).0
        ((λ e. (refl, refl, refl)), (λ p q. cc), (λ p. cc))
  decide-Decided judges false false is_a w v d h =
      subst (Decided (names_of judges) false false is_a) (ended_eq h).0
        ((λ e. cc), (λ p q. (refl, refl, refl)), (λ p. cc))
  decide-Decided judges true true is_a w v d h = judged_by judges is_a true w v d h
  decide-Decided judges false true is_a w v d h = judged_by judges is_a false w v d h

two_judges : (n : ℕ) → raise_if (ltb n 2) too_few_judges ≡ ok tt → 2 ≤ n
two_judges n h = ground arith

case_record-IsConsistent :
    (c : EvaluationCase) (n : List String) (is_a : Bool) (original optimized : String)
    (x y : HardChecks) (d : Judged)
    → Decided n x.passed y.passed is_a d
    → IsConsistent n (case_record c is_a original optimized x y d)
unfolding case_record
case_record-IsConsistent c n is_a original optimized x y d h = record {
  flag = refl;
  critical = h.0;
  both = h.1;
  judged = h.2;
}

-- The record and what its checks are.
abbrev Reported :
    {S : Type 0} → Host S → EvaluationCase → Option S → List String → CaseRecord → Type 0
Reported host c sandbox n r =
    IsConsistent n r
    × (hard_checks host c r.original_output sandbox ≡ ok r.original_checks)
    × (hard_checks host c r.optimized_output sandbox ≡ ok r.optimized_checks)

evaluate_outputs-IsConsistent :
    {W S : Type 0} (host : Host S) (first_byte : ℤ → String → ℕ) (judges : List (Judge W))
    (seed : ℤ) (sandbox : Option S) (c : EvaluationCase) (original optimized : String) (w v : W)
    (r : CaseRecord)
    → evaluate_outputs host first_byte judges seed sandbox c original optimized w ≡ (ok r, v)
    → Reported host c sandbox (names_of judges) r
unfolding evaluate_outputs
evaluate_outputs-IsConsistent host first_byte judges seed sandbox c original optimized w v r h =
    let (x, w', checked, h1) = through (lift (hard_checks host c original sandbox)) _ w h in
    let (y, w2, checked', h2) = through (lift (hard_checks host c optimized sandbox)) _ w' h1 in
    let is_a = optimized_is_a first_byte c.case_id seed in
    let a = if is_a then optimized else original in
    let b = if is_a then original else optimized in
    let (d, w3, decided, made) = through (decide c judges x.passed y.passed is_a a b) _ w2 h2 in
    let consistent =
      case_record-IsConsistent c (names_of judges) is_a original optimized x y d
        (decide-Decided c a b judges x.passed y.passed is_a w2 w3 d decided) in
    subst (Reported host c sandbox (names_of judges)) (ended_eq made).0
      (unfold case_record in (consistent, ap (λ o. o.0) checked, ap (λ o. o.0) checked'))

-- A record that `evaluate_case` returns holds the hard checks of its two outputs and is consistent:
-- an optimized output that alone fails them is a critical regression, a loss and never judged; two
-- that fail are a tie and not judged; otherwise the record has, under the name of each judge in turn,
-- of whom there are at least two, a decision with one of the three winners, a reason that is not
-- blank, two booleans for the flaws and an object of metadata, and outcome and fatal flaw are the
-- aggregate of these decisions.
pub evaluate_case-IsConsistent :
    {W S : Type 0} (host : Host S) (first_byte : ℤ → String → ℕ) (executor : Executor W)
    (judges : List (Judge W)) (seed : ℤ) (sandbox : Option S) (original optimized : String)
    (c : EvaluationCase) (w v : W) (r : CaseRecord)
    → evaluate_case host first_byte executor judges seed sandbox original optimized c w ≡ (ok r, v)
    → IsConsistent (names_of judges) r
      × (2 ≤ length judges)
      × (hard_checks host c r.original_output sandbox ≡ ok r.original_checks)
      × (hard_checks host c r.optimized_output sandbox ≡ ok r.optimized_checks)
unfolding evaluate_case
evaluate_case-IsConsistent host first_byte executor judges seed sandbox original optimized c w v r
      h =
    let (t, w', valid, h1) = through (lift (validate_case c)) _ w h in
    let (t', w2, enough, h2) =
      through (lift (raise_if (ltb (length judges) 2) too_few_judges)) _ w' h1 in
    let (first, w3, ran, h3) = through (execute_prompt executor original c.input_text) _ w2 h2 in
    let (second, w4, ran', h4) = through (execute_prompt executor optimized c.input_text) _ w3 h3 in
    let (consistent, o, p) =
      evaluate_outputs-IsConsistent host first_byte judges seed sandbox c first second w4 v r h4 in
    (consistent, two_judges (length judges) (ap (λ o. o.0) enough), o, p)
