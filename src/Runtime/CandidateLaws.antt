-- ===== src/Runtime/CandidateLaws.antt =====
-- What the candidates that the runtime has made say of the model calls it recorded.
use prompt_performance_engin.Prelude.{
  Bool, ℕ, ◌+◌, ◌≤◌, String, List, [], ◌∷◌, All, length, ◌≡◌, false, true, arith, refl, ap, subst,
  suc, sym, ◌∙◌, Bool-cases, inl, if◌then◌else◌, inr, subst₂,
}
use prompt_performance_engin.Prelude.Text.{is_blank}
use prompt_performance_engin.Prelude.Result.{Result, ok, err, ok_eq}
use prompt_performance_engin.Prelude.Action.{through, ended_eq, lift}
use prompt_performance_engin.Runtime.Parser.{
  ParseError, extract_optimized_prompt, extract_optimized_prompt_iff,
}
use prompt_performance_engin.Runtime.Adapter.{Error, Adapter, Session, call_model, call_length}
use prompt_performance_engin.Runtime.Candidates.{
  Host, Candidate, make_candidate, make_candidates, settle_candidate, repair, parsed,
  repair_system_prompt,
}
use prompt_performance_engin.Runtime.Optimize.{total_repairs}
use prompt_performance_engin.Contracts.Strategies.{Strategy}

-- A candidate that took no more than the one repair that may be allowed.
abbrev pub IsRepairable : Bool → Candidate → Type 0
IsRepairable may_repair c =
    (is_blank c.prompt ≡ false) × (c.repairs ≤ 1) × (may_repair ≡ false → c.repairs ≡ 0)

parsed_of_ok :
    (o : Result ParseError String) (raw : String) (n : ℕ) (c : Candidate)
    → parsed raw n o ≡ ok c
    → (o ≡ ok c.prompt) × (c.repairs ≡ n)
unfolding parsed
parsed_of_ok (ok p) raw n c h =
    let e = ok_eq h in
    (ap (λ (x : Candidate). ok x.prompt) e, sym (ap (λ (x : Candidate). x.repairs) e))
parsed_of_ok (err e) raw n c h = cc

-- What `n` strategies lead to, with `start` calls before them.
abbrev Counted : Bool → ℕ → ℕ → List Candidate → ℕ → Type 0
Counted may_repair n start cs end_ =
    (length cs ≡ n) × All (IsRepairable may_repair) cs × (end_ ≡ start + n + total_repairs cs)

err_not_ok : {e : ParseError} {p : String} → ◌≡◌ {A = Result ParseError String} (err e) (ok p) → ⊥
err_not_ok h = cc

true_not_false : {b : Bool} → b ≡ true → b ≡ false → ⊥
true_not_false h k = cc

module _ {C W : Type 0} (host : Host C) (adapter : Adapter W) (may_repair : Bool)
    (output_format : String) where
  extracted-not_blank :
      (text p : String)
      → extract_optimized_prompt host.parse text output_format ≡ ok p
      → is_blank p ≡ false
  extracted-not_blank text p e =
      let (filled, supported, fs, decoded, alone, found, not_blank) =
        (extract_optimized_prompt_iff host.parse text output_format p).0 e in
      not_blank

  parsed-not_blank :
      (raw text : String) (n : ℕ) (c : Candidate)
      → parsed raw n (extract_optimized_prompt host.parse text output_format) ≡ ok c
      → (is_blank c.prompt ≡ false) × (c.repairs ≡ n)
  parsed-not_blank raw text n c h =
      let (returned, repairs) =
        parsed_of_ok (extract_optimized_prompt host.parse text output_format) raw n c h in
      (extracted-not_blank text c.prompt returned, repairs)

  repair_calls :
      (raw : String) (s t : Session W) (c : Candidate)
      → repair host adapter output_format raw s ≡ (ok c, t)
      → (is_blank c.prompt ≡ false) × (c.repairs ≡ 1) × (length t.1 ≡ suc (length s.1))
  unfolding repair
  repair_calls raw s t c h =
      let (r, u, called, rest) =
        through
          (call_model host.digests adapter "optimization_repair" repair_system_prompt
            (host.repair_payload output_format raw))
          _ s h in
      let (not_blank, repairs) = parsed-not_blank r.text r.text 1 c (ap (λ o. o.0) rest) in
      (
        not_blank,
        repairs,
        ap (λ (o : Result Error Candidate × Session W). length o.1.1) (sym rest)
            ∙ call_length host.digests adapter _ _ _ s u r called,
      )

  settle_calls :
      (o : Result ParseError String) (raw : String) (s t : Session W) (c : Candidate)
      → ((p : String) → o ≡ ok p → is_blank p ≡ false)
      → settle_candidate host adapter may_repair output_format raw o s ≡ (ok c, t)
      → IsRepairable may_repair c × (length t.1 ≡ length s.1 + c.repairs)
  unfolding settle_candidate
  settle_calls (ok p) raw s t c not_blank h =
      let (returned, repairs) = parsed_of_ok (ok p) raw 0 c (ap (λ o. o.0) h) in
      (
        (not_blank c.prompt returned, omega (arith, repairs), (λ e. repairs)),
        ap (λ (o : Result Error Candidate × Session W). length o.1.1) (sym h)
            ∙ omega (arith, repairs),
      )
  settle_calls (err e) raw s t c not_blank h = elim (Bool-cases may_repair) [
    | inl allowed ↦
        let (filled, repairs, longer) = repair_calls raw s t c (
          subst
            (λ b.
              (if b then repair host adapter output_format raw else lift (parsed raw 0 (err e))) s
              ≡ (ok c, t))
            allowed h) in
        (
          (filled, omega (arith, repairs), (λ f. absurd (true_not_false allowed f))),
          omega (arith, repairs, longer),
        )
    | inr barred ↦
        let refused =
          subst
            (λ b.
              (if b then repair host adapter output_format raw else lift (parsed raw 0 (err e))) s
              ≡ (ok c, t))
            barred h in
        absurd (err_not_ok (parsed_of_ok (err e) raw 0 c (ap (λ o. o.0) refused)).0)
  ]

  make_candidate_calls :
      (compiled : C) (count index : ℕ) (strategy : Strategy) (s t : Session W) (c : Candidate)
      → make_candidate host adapter may_repair output_format compiled count index strategy s
        ≡ (ok c, t)
      → IsRepairable may_repair c × (length t.1 ≡ length s.1 + 1 + c.repairs)
  unfolding make_candidate
  make_candidate_calls compiled count index strategy s t c h =
      let (r, u, called, rest) =
        through (call_model host.digests adapter "optimization_candidate" _ _) _ s h in
      let (repairable, longer) =
        settle_calls (extract_optimized_prompt host.parse r.text output_format) r.text u t c
          (λ p e. extracted-not_blank r.text p e) rest in
      (repairable, omega (arith, longer, call_length host.digests adapter _ _ _ s u r called))

  -- One candidate for each strategy, one recorded call for each and one for each repair.
  pub make_candidates_calls :
      (compiled : C) (count index : ℕ) (plan : List Strategy) (s t : Session W)
      (cs : List Candidate)
      → make_candidates host adapter may_repair output_format compiled count index plan s
        ≡ (ok cs, t)
      → (length cs ≡ length plan)
        × All (IsRepairable may_repair) cs
        × (length t.1 ≡ length s.1 + length plan + total_repairs cs)
  unfolding make_candidates total_repairs
  make_candidates_calls compiled count index [] s t cs h =
      let (none_, same) = ended_eq h in
      subst₂ (Counted may_repair 0 (length s.1)) none_ (ap (λ (v : Session W). length v.1) same)
        (refl, tt, omega arith)
  make_candidates_calls compiled count index (strategy ∷ rest) s t cs h =
      let (c, u, made, others) =
        through (make_candidate host adapter may_repair output_format compiled count index strategy)
          _ s h in
      let (ds, v, more, end_) =
        through
          (make_candidates host adapter may_repair output_format compiled count (suc index) rest) _
          u others in
      let (filled, longer) = make_candidate_calls compiled count index strategy s u c made in
      let (as_many, others_filled, longer') =
        make_candidates_calls compiled count (suc index) rest u v ds more in
      let (list_, same) = ended_eq end_ in
      subst₂ (Counted may_repair (suc (length rest)) (length s.1)) list_
        (ap (λ (v : Session W). length v.1) same)
        (ap suc as_many, (filled, others_filled), omega (arith, longer, longer'))
