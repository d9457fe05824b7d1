-- ===== src/Evaluation/SuiteLaws.antt =====
-- What the counts, the gate and the evidence of a suite say of its records.
use prompt_performance_engin.Prelude.{
  ℕ, ◌+◌, ◌≤◌, ◌<◌, ◌≡◌, Bool, true, false, List, [], ◌∷◌, length, count_if, arith, refl, All, ap,
  Bool-cases, ◌&&◌, String, inl, leb, not, str_eq, ◌∙◌, inr, sym, Option, subst, suc, is_empty,
}
use prompt_performance_engin.Evaluation.Judging.{
  Outcome, loss, is_loss, aggregate_judges, aggregate_judges-loss,
}
use prompt_performance_engin.Evaluation.Run.{CaseRecord, Executor, Judge, evaluate_case}
use prompt_performance_engin.Evaluation.RunLaws.{
  IsConsistent, decisions_of, evaluate_case-IsConsistent, names_of,
}
use prompt_performance_engin.Evaluation.Suite.{
  won, regressed, tied, flawed, lost, SuiteResult, evaluate_suite, failed_hard, gate, suite_result,
  gate_of,
}
use prompt_performance_engin.Prelude.Result.{ok, raise_if}
use prompt_performance_engin.Evaluation.Case.{
  no_cases, JudgeDecision, EvaluationCase, empty_suite_id, no_cases,
}
use prompt_performance_engin.Evaluation.HardChecks.{Host}
use prompt_performance_engin.Prelude.Value.{ℤ}
use prompt_performance_engin.Prelude.Action.{for_each, through, lift, ended_eq}
use prompt_performance_engin.Prelude.Text.{is_blank}
use prompt_performance_engin.Evidence.{validate, infer_evidence_ceiling}

-- Every record has one outcome.
outcomes_add_up :
    (rs : List CaseRecord) → count_if won rs + count_if tied rs + count_if lost rs ≡ length rs
outcomes_add_up [] = refl
outcomes_add_up (r ∷ rs) = ground (arith, outcomes_add_up rs)

outcome_lost : (o : Outcome) → o ≡ loss → is_loss o ≡ true
outcome_lost o e = cc

-- The flag of the aggregate stands for a loss.
aggregate_flaw :
    (ds : List JudgeDecision) (b : Bool) (o : Outcome) (f : Bool)
    → aggregate_judges ds b ≡ (o, f)
    → f ≡ true
    → o ≡ loss
aggregate_flaw ds b o f e h =
    sym (ap (λ x. x.0) e) ∙ aggregate_judges-loss ds b (ap (λ x. x.1) e ∙ h)

only_original :
    (r : CaseRecord)
    → r.original_checks.passed ≡ true
    → r.optimized_checks.passed ≡ false
    → (r.original_checks.passed && not r.optimized_checks.passed) ≡ true
only_original r o q = ground arith

flaw_lost :
    (n : List String) (r : CaseRecord)
    → IsConsistent n r
    → r.fatal_flaw ≡ true
    → is_loss r.outcome ≡ true
flaw_lost n r v h = elim (Bool-cases r.optimized_checks.passed) [
  | inl p ↦ ap is_loss (
      aggregate_flaw (decisions_of r.judge_decisions) r.optimized_is_a r.outcome r.fatal_flaw
        (v.judged p).2 h)
  | inr q ↦ elim (Bool-cases r.original_checks.passed) [
    | inl o ↦ cc ((v.critical (v.flag ∙ only_original r o q)).1)
    | inr o ↦ cc ((v.both o q).1)
  ]
]

-- A consistent record with a critical regression or a fatal flaw is a loss, and never both.
regression_or_flaw :
    (n : List String) (r : CaseRecord)
    → IsConsistent n r
    → (regressed r ≡ true → lost r ≡ true)
      × (flawed r ≡ true → lost r ≡ true)
      × (regressed r ≡ true → flawed r ≡ false)
regression_or_flaw n r v =
    ((λ h. ap is_loss (v.critical h).0), (λ h. flaw_lost n r v h), (λ h. (v.critical h).1))

regressions-le-losses :
    (n : List String) (rs : List CaseRecord)
    → All (IsConsistent n) rs
    → count_if regressed rs + count_if flawed rs ≤ count_if lost rs
regressions-le-losses n [] v = omega arith
regressions-le-losses n (r ∷ rs) (v, vs) =
    ground (arith, regression_or_flaw n r v, regressions-le-losses n rs vs)

records-IsConsistent :
    {W S : Type 0} (host : Host S) (first_byte : ℤ → String → ℕ) (executor : Executor W)
    (judges : List (Judge W)) (seed : ℤ) (sandbox : Option S) (original optimized : String)
    (cases : List EvaluationCase) (w v : W) (rs : List CaseRecord)
    → for_each
        (evaluate_case host first_byte executor judges seed sandbox original optimized)
        cases
        w
      ≡ (ok rs, v)
    → (length rs ≡ length cases) × All (IsConsistent (names_of judges)) rs
records-IsConsistent host first_byte executor judges seed sandbox original optimized [] w v rs h =
    subst (λ xs. (length xs ≡ 0) × All (IsConsistent (names_of judges)) xs) (ended_eq h).0
      (refl, tt)
records-IsConsistent host first_byte executor judges seed sandbox original optimized (c ∷ cs) w v rs
      h =
    let run = evaluate_case host first_byte executor judges seed sandbox original optimized in
    let (r, u, first, rest) = through (run c) _ w h in
    let (rs', u', others, made) = through (for_each run cs) _ u rest in
    let (same, valid) =
      records-IsConsistent host first_byte executor judges seed sandbox original optimized cs u u'
        rs' others in
    subst (λ xs. (length xs ≡ suc (length cs)) × All (IsConsistent (names_of judges)) xs)
      (ended_eq made).0
      (
        ap suc same,
        (
          (evaluate_case-IsConsistent host first_byte executor judges seed sandbox original
              optimized c w u r first).0,
          valid,
        ),
      )

-- The records of a result, and what its numbers say of them.
abbrev pub Tallies : ℕ → List String → SuiteResult → Type 0
Tallies cases judges s =
    (s.case_count ≡ cases)
    × (s.wins + s.ties + s.losses ≡ cases)
    × (s.critical_regressions + s.fatal_flaws ≤ s.losses)
    × All (IsConsistent judges) s.records

suite_result-Tallies :
    (suite_id : String) (rs : List CaseRecord) (cases : ℕ) (judges : List String)
    → length rs ≡ cases
    → All (IsConsistent judges) rs
    → Tallies cases judges (suite_result suite_id rs)
unfolding suite_result
suite_result-Tallies suite_id rs cases judges e v =
    (e, outcomes_add_up rs ∙ e, regressions-le-losses judges rs v, v)

-- A suite that returns has a consistent record for each case; wins, ties and losses add up to the
-- number of cases; and critical regressions and fatal flaws, which never meet in one record, are
-- together no more than the losses.
pub evaluate_suite-Tallies :
    {W S : Type 0} (host : Host S) (first_byte : ℤ → String → ℕ) (executor : Executor W)
    (judges : List (Judge W)) (seed : ℤ) (sandbox : Option S) (suite_id original optimized : String)
    (cases : List EvaluationCase) (w v : W) (s : SuiteResult)
    → evaluate_suite host first_byte executor judges seed sandbox suite_id original optimized cases
        w
      ≡ (ok s, v)
    → Tallies (length cases) (names_of judges) s
unfolding evaluate_suite
evaluate_suite-Tallies host first_byte executor judges seed sandbox suite_id original optimized
      cases w v s h =
    let (t, w', named, h1) = through (lift (raise_if (is_blank suite_id) empty_suite_id)) _ w h in
    let (t', w2, some_, h2) = through (lift (raise_if (is_empty cases) no_cases)) _ w' h1 in
    let (rs, w3, ran, made) =
      through
        (for_each (evaluate_case host first_byte executor judges seed sandbox original optimized)
          cases)
        _ w2 h2 in
    let (same, valid) =
      records-IsConsistent host first_byte executor judges seed sandbox original optimized cases w2
        w3 rs ran in
    subst (Tallies (length cases) (names_of judges)) (ended_eq made).0
      (suite_result-Tallies suite_id rs (length cases) (names_of judges) same valid)

none_failed :
    (rs : List CaseRecord)
    → count_if failed_hard rs ≡ 0
    → All (λ r. r.optimized_checks.passed ≡ true) rs
none_failed [] h = tt
none_failed (r ∷ rs) h = ground (arith, none_failed rs)

gate-facts :
    (n wins losses critical fatal failures : ℕ)
    → gate n wins losses critical fatal failures ≡ true
    → (5 ≤ n) × (losses < wins) × (critical ≡ 0) × (fatal ≡ 0) × (failures ≡ 0)
unfolding gate
gate-facts n wins losses critical fatal failures h = ground arith

-- The gate asks for five cases itself.
gate_needs_five :
    (n wins losses critical fatal failures : ℕ)
    → (leb 5 n && gate n wins losses critical fatal failures)
      ≡ gate n wins losses critical fatal failures
unfolding gate
gate_needs_five n wins losses critical fatal failures = ground arith

-- When the gate of a result passes, every optimized output passed its hard checks, there is no
-- critical regression and no fatal flaw, at least five cases were run and more were won than lost.
-- The evidence is verified, and of level E2, exactly then; it is never higher.
pub gate_passed_lem :
    (suite_id : String) (rs : List CaseRecord)
    → let s = suite_result suite_id rs in
      (s.gate_passed ≡ true
        → All (λ r. r.optimized_checks.passed ≡ true) s.records
          × (5 ≤ s.case_count)
          × (s.losses < s.wins)
          × (s.critical_regressions ≡ 0)
          × (s.fatal_flaws ≡ 0))
      × (str_eq s.evidence.level "E2" ≡ s.gate_passed)
      × (str_eq s.evidence.status "verified_scoped" ≡ s.gate_passed)
      × (validate s.evidence ≡ ok tt)
unfolding suite_result gate_of
gate_passed_lem suite_id rs =
    let n = length rs in
    let g = gate_of rs in
    let facts = infer_evidence_ceiling true g false false n 0 in
    let five =
      gate_needs_five n (count_if won rs) (count_if lost rs) (count_if regressed rs)
        (count_if flawed rs) (count_if failed_hard rs) in
    (
      (λ h.
          let f =
            gate-facts n (count_if won rs) (count_if lost rs) (count_if regressed rs)
              (count_if flawed rs) (count_if failed_hard rs) h in
          (none_failed rs f.4, f.0, f.1, f.2, f.3)),
      facts.2 ∙ five,
      facts.3 ∙ five,
      facts.0,
    )
