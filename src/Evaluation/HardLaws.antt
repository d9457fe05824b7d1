-- ===== src/Evaluation/HardLaws.antt =====
-- What passing the hard checks means, and that they fail closed without a sandbox.
use prompt_performance_engin.Prelude.{
  Bool, true, false, ◌&&◌, ◌≡◌, refl, List, [], ◌∷◌, ◌++◌, map, Option, none, some, String, arith,
  All, sym, length, ◌∙◌, Bool-cases, ap, inl, inr,
}
use prompt_performance_engin.Checks.Record.{all_passed, Check}
use prompt_performance_engin.Evaluation.HardChecks.{
  Host, forbidden_check, required_check, hard_checks, json_check, later_checks, length_check,
  HardChecks, fits, loaded,
}
use prompt_performance_engin.Evaluation.Forbidden.{IsClear, contains_unnegated_forbidden-IsClear}
use prompt_performance_engin.Prelude.Text.{occurs_in, codes}
use prompt_performance_engin.Prelude.Result.{ok, traverse, traverse_cons, returned_by, Result, err}
use prompt_performance_engin.Evaluation.Case.{EvaluationCase, Error}
use prompt_performance_engin.Checks.CaseChecks.{
  run_case_checks, docker_required, run_case_checks-closed,
}
use prompt_performance_engin.Prelude.Value.{ℤ}

all_passed-append : (xs ys : List Check) → all_passed (xs ++ ys) ≡ (all_passed xs && all_passed ys)
unfolding all_passed
all_passed-append [] ys = refl
all_passed-append (x ∷ xs) ys = ground (arith, all_passed-append xs ys)

and_split : (a b : Bool) → (a && b) ≡ true → (a ≡ true) × (b ≡ true)
and_split a b h = ground arith

abbrev passed_of : Result Error HardChecks → Bool
passed_of (ok h) = h.passed
passed_of (err e) = false

module _ {S : Type 0} (host : Host S) where
  abbrev pub Occurs : String → String → Type 0
  Occurs output required = occurs_in (host.casefold required) (host.casefold output) ≡ true

  abbrev pub IsExcluded : String → String → Type 0
  IsExcluded output forbidden =
      IsClear host.patterns (host.casefold output) (host.casefold forbidden) 0

  required_passed :
      (output : String) (texts : List String)
      → all_passed (map (required_check host output) texts) ≡ true
      → All (Occurs output) texts
  unfolding all_passed required_check
  required_passed output [] h = tt
  required_passed output (t ∷ texts) h = ground (arith, required_passed output texts)

  forbidden_check-passed :
      (output forbidden : String) (c : Check)
      → forbidden_check host output forbidden ≡ ok c
      → all_passed (c ∷ []) ≡ true
      → IsExcluded output forbidden
  unfolding all_passed forbidden_check
  forbidden_check-passed output forbidden c h p =
      contains_unnegated_forbidden-IsClear host.patterns (host.casefold output)
        (host.casefold forbidden) (ground (arith, h, p))

  forbidden_passed :
      (output : String) (texts : List String) (cs : List Check)
      → traverse (forbidden_check host output) texts ≡ ok cs
      → all_passed cs ≡ true
      → All (IsExcluded output) texts
  forbidden_passed output [] cs h p = tt
  forbidden_passed output (t ∷ texts) cs h p =
      let (y, ys, first, others, e) = traverse_cons (forbidden_check host output) t texts cs h in
      let both : all_passed (y ∷ []) ≡ true × all_passed ys ≡ true =
        and_split (all_passed (y ∷ [])) (all_passed ys)
          (sym (all_passed-append (y ∷ []) ys) ∙ ap all_passed e ∙ p) in
      (
        forbidden_check-passed output t y first both.0,
        forbidden_passed output texts ys others both.1,
      )

  -- The tests of the entries from the JSON check on.
  abbrev pub LaterHold : EvaluationCase → String → Option S → Type 0
  LaterHold c output sandbox =
      (c.require_json ≡ true → host.load_json output ≡ loaded)
      × ((limit : ℤ) → c.max_characters ≡ some limit → fits (length (codes output)) limit ≡ true)
      × (all_passed (host.domain_checks c.domain c.input_text output) ≡ true)
      × (all_passed (run_case_checks host.verify c.case_id output sandbox) ≡ true)

  json_check-passed :
      (c : EvaluationCase) (output : String) (json : List Check)
      → json_check host c output ≡ ok json
      → all_passed json ≡ true
      → c.require_json ≡ true
      → host.load_json output ≡ loaded
  unfolding all_passed json_check
  json_check-passed c output json h p r = ground (arith, h, p, r)

  length_check-passed :
      (c : EvaluationCase) (output : String) (limit : ℤ)
      → all_passed (length_check host c output) ≡ true
      → c.max_characters ≡ some limit
      → fits (length (codes output)) limit ≡ true
  unfolding all_passed length_check
  length_check-passed c output limit h r = ground arith

  later_passed :
      (c : EvaluationCase) (output : String) (sandbox : Option S)
      → all_passed (later_checks host c output sandbox) ≡ true
      → ((limit : ℤ) → c.max_characters ≡ some limit → fits (length (codes output)) limit ≡ true)
        × (all_passed (host.domain_checks c.domain c.input_text output) ≡ true)
        × (all_passed (run_case_checks host.verify c.case_id output sandbox) ≡ true)
  unfolding later_checks
  later_passed c output sandbox h =
      let size = length_check host c output in
      let domain = host.domain_checks c.domain c.input_text output in
      let cases = run_case_checks host.verify c.case_id output sandbox in
      let (l, rest') =
        and_split (all_passed size) (all_passed (domain ++ cases))
          (sym (all_passed-append size (domain ++ cases)) ∙ h) in
      let (d, k) =
        and_split (all_passed domain) (all_passed cases)
          (sym (all_passed-append domain cases) ∙ rest') in
      ((λ limit. length_check-passed c output limit l), d, k)

  -- An output that passes its hard checks contains every required text; each occurrence of a forbidden
  -- text in it, taken in turn, is negated without reversal in its clause, or in words that report,
  -- warn or reject; it is JSON if JSON is asked for, and within the length allowed; and every
  -- authoritative domain check and case check passed.
  pub hard_checks_sound :
      (c : EvaluationCase) (output : String) (sandbox : Option S) (h : HardChecks)
      → hard_checks host c output sandbox ≡ ok h
      → h.passed ≡ true
      → All (Occurs output) c.required_substrings
        × All (IsExcluded output) c.forbidden_substrings
        × LaterHold c output sandbox
  unfolding hard_checks
  hard_checks_sound c output sandbox h run passed =
      let required = map (required_check host output) c.required_substrings in
      let later = later_checks host c output sandbox in
      let (forbidden, h1, searched) =
        returned_by (traverse (forbidden_check host output) c.forbidden_substrings) _ h run in
      let (json, made, parsed) = returned_by (json_check host c output) _ h h1 in
      let all_ : all_passed (required ++ (forbidden ++ (json ++ later))) ≡ true =
        ap passed_of made ∙ passed in
      let (r, rest) =
        and_split (all_passed required) (all_passed (forbidden ++ (json ++ later)))
          (sym (all_passed-append required (forbidden ++ (json ++ later))) ∙ all_) in
      let (f, rest') =
        and_split (all_passed forbidden) (all_passed (json ++ later))
          (sym (all_passed-append forbidden (json ++ later)) ∙ rest) in
      let (j, l) =
        and_split (all_passed json) (all_passed later)
          (sym (all_passed-append json later) ∙ rest') in
      let (size, domain, cases) = later_passed c output sandbox l in
      (
        required_passed output c.required_substrings r,
        forbidden_passed output c.forbidden_substrings forbidden searched f,
        (json_check-passed c output json parsed j, size, domain, cases),
      )

  -- For a case whose check runs the output, there is no passing without a sandbox: where the hard
  -- checks return, they have failed, whatever the output is.
  pub hard_checks_fail_closed :
      (c : EvaluationCase) (output : String) (h : HardChecks)
      → docker_required c.case_id ≡ true
      → hard_checks host c output none ≡ ok h
      → h.passed ≡ false
  hard_checks_fail_closed c output h needed run = elim (Bool-cases h.passed) [
    | inl p ↦ cc (
      (hard_checks_sound c output none h run p).2.3,
      run_case_checks-closed host.verify c.case_id output needed,
    )
    | inr e ↦ e
  ]
