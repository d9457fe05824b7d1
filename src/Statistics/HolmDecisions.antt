-- ===== src/Statistics/HolmDecisions.antt =====
-- Which p-values `holm_bonferroni` rejects.
use prompt_performance_engin.Prelude.{
  true, false, List, some, ◌≤◌, ◌≡◌, ◌↔◌, ℕ, Bool, map, ap, count_if, true, any, ◌∷◌, arith,
  if◌then◌else◌, inl, ◌==◌, [], inr, length, subst, suc, sym, ◌∙◌, Option, refl, ◌<◌, Option-cases,
  ltb, ◌&&◌,
}
use prompt_performance_engin.Statistics.ParetoLaws.{any-Among, Among}
use prompt_performance_engin.Statistics.Floats.{
  Floats, IsOrdered, Error, bad_probability, bad_alpha, no_p_values, too_many_p_values,
}
use prompt_performance_engin.Statistics.Holm.{
  probability, Tested, family_level, holm_bonferroni, decisions, enumerate, rejected, ordered,
}
use prompt_performance_engin.Prelude.Value.{Value, Items, arr, elements}
use prompt_performance_engin.Prelude.Result.{
  ok, traverse, Result, returned_by, last_of_two, ok_eq, raise_if, traverse_cons, err,
}
use prompt_performance_engin.Statistics.HolmLaws.{
  IsAntitone, at_least, rejected-Passes, Passes-rejected, count_if-ordered, ordered-Rising,
  Among-ordered, ordered-Among, rejected-Among, family_level-positive,
}
use prompt_performance_engin.Statistics.Safety.{max_diagnostic_cases}

abbrev pub IsProbability : (f : Floats) → Value → f.Number → Type 0
IsProbability f v p = f.read v ≡ some p

probability-read :
    (f : Floats) (v : Value) (p : f.Number) → probability f v ≡ ok p → f.read v ≡ some p
unfolding probability
probability-read f v p h = elim (Option-cases (f.read v)) [
  | inl e ↦ cc (rw (e, probability) at h)
  | inr (x, e) ↦ e ∙ checked x (f.is_le f.nought x && f.is_le x f.unity) (rw (e, probability) at h)
]
  where
    checked :
        (x : f.Number) (b : Bool)
        → ◌≡◌ {A = Result Error f.Number} (if b then ok x else err bad_probability) (ok p)
        → ◌≡◌ {A = Option f.Number} (some x) (some p)
    checked x true h = ap (λ y. some y) (ok_eq h)
    checked x false h = cc

probabilities_read :
    (f : Floats) (vs : List Value) (ps : List f.Number)
    → traverse (probability f) vs ≡ ok ps
    → map f.read vs ≡ map (λ (p : f.Number). some p) ps
probabilities_read f [] ps h = ap (map (λ (p : f.Number). some p)) (ok_eq h)
probabilities_read f (v ∷ vs) ps h =
    let (q, qs, first, others, whole) = traverse_cons (probability f) v vs ps h in
    rw (probability-read f v q first, probabilities_read f vs qs others)
      (ap (map (λ (p : f.Number). some p)) whole)

module _ (f : Floats) (lawful : IsOrdered f) (divide : f.Number → ℕ → f.Number) where
  -- Each p-value up to `p` is at most the level divided by the number of p-values from it on.
  abbrev pub IsRejected : f.Number → List f.Number → f.Number → Type 0
  IsRejected alpha ps p =
      (q : f.Number)
      → Among q ps
      → f.is_le q p ≡ true
      → f.is_le q (divide alpha (count_if (f.is_le q) ps)) ≡ true

  -- One decision for each p-value of `rest`, a rejection exactly when it is to be.
  abbrev pub IsStepDown : f.Number → List f.Number → List f.Number → List Bool → Type 0
  IsStepDown alpha ps [] [] = Unit
  IsStepDown alpha ps (p ∷ rest) (b ∷ bs) =
      ((b ≡ true) ↔ IsRejected alpha ps p) × IsStepDown alpha ps rest bs
  IsStepDown alpha ps rest bs = ⊥

  index-le :
      (n : ℕ) (ps : List f.Number) (t : Tested f) → Among t (enumerate f divide n ps) → n ≤ t.index
  index-le n [] t h = absurd h
  index-le n (p ∷ ps) t (inl same) = subst (λ (v : Tested f). n ≤ v.index) same (omega arith)
  index-le n (p ∷ ps) t (inr h) = omega (arith, index-le (suc n) ps t h)

  -- No two tests have the same index.
  index_unique :
      (n : ℕ) (ps : List f.Number) (s t : Tested f)
      → Among s (enumerate f divide n ps)
      → Among t (enumerate f divide n ps)
      → s.index ≡ t.index
      → s ≡ t
  index_unique n [] s t h k e = absurd h
  index_unique n (p ∷ ps) s t (inl a) (inl b) e = sym a ∙ b
  index_unique n (p ∷ ps) s t (inl a) (inr k) e =
      absurd
        (over_itself (omega (arith, e, ap (λ (v : Tested f). v.index) a, index-le (suc n) ps t k)))
    where
      over_itself : n < n → ⊥
      over_itself h = omega arith
  index_unique n (p ∷ ps) s t (inr h) (inl b) e =
      absurd
        (over_itself (omega (arith, e, ap (λ (v : Tested f). v.index) b, index-le (suc n) ps s h)))
    where
      over_itself : n < n → ⊥
      over_itself h = omega arith
  index_unique n (p ∷ ps) s t (inr h) (inr k) e = index_unique (suc n) ps s t h k e

  count_if-enumerate :
      (test : f.Number → Bool) (n : ℕ) (ps : List f.Number)
      → count_if (λ (t : Tested f). test t.p_value) (enumerate f divide n ps) ≡ count_if test ps
  count_if-enumerate test n [] = refl
  count_if-enumerate test n (p ∷ ps) = ground (arith, count_if-enumerate test (suc n) ps)

  p_value-Among :
      (n : ℕ) (ps : List f.Number) (t : Tested f)
      → Among t (enumerate f divide n ps)
      → Among t.p_value ps
  p_value-Among n [] t h = absurd h
  p_value-Among n (p ∷ ps) t (inl same) = inl (ap (λ (v : Tested f). v.p_value) same)
  p_value-Among n (p ∷ ps) t (inr h) = inr (p_value-Among (suc n) ps t h)

  test_of :
      (n : ℕ) (ps : List f.Number) (q : f.Number)
      → Among q ps
      → (t : Tested f) × Among t (enumerate f divide n ps) × (t.p_value ≡ q)
  test_of n [] q h = absurd h
  test_of n (p ∷ ps) q (inl same) = (_, inl refl, same)
  test_of n (p ∷ ps) q (inr h) = let (t, there, e) = test_of (suc n) ps q h in (t, inr there, e)

  any_of_Among :
      (test : Tested f → Bool) (ts : List (Tested f)) (t : Tested f)
      → Among t ts
      → test t ≡ true
      → any test ts ≡ true
  any_of_Among test [] t h e = absurd h
  any_of_Among test (u ∷ us) t (inl same) e = ground (arith, ap test same ∙ e)
  any_of_Among test (u ∷ us) t (inr h) e = ground (arith, any_of_Among test us t h e)

  module _ (alpha : f.Number) (ps : List f.Number)
      (antitone : IsAntitone f lawful divide alpha) where
    abbrev kept : List (Tested f)
    kept = rejected f divide alpha (ordered f divide (enumerate f divide 0 ps))

    rank-same :
        (a : f.Number)
        → at_least f lawful divide a (ordered f divide (enumerate f divide 0 ps))
          ≡ count_if (f.is_le a) ps
    rank-same a =
        count_if-ordered f lawful divide (λ (r : Tested f). f.is_le a r.p_value)
          (enumerate f divide 0 ps)
        ∙ count_if-enumerate (f.is_le a) 0 ps

    kept-IsRejected : (t : Tested f) → Among t kept → IsRejected alpha ps t.p_value
    kept-IsRejected t h q there low =
        let (s, among, same) = test_of 0 ps q there in
        let passes =
          rejected-Passes f lawful divide alpha (ordered f divide (enumerate f divide 0 ps)) s t
            (ordered-Rising f lawful divide (enumerate f divide 0 ps)) h
            (Among-ordered f lawful divide (enumerate f divide 0 ps) s among)
            (subst (λ x. f.is_le x t.p_value ≡ true) (sym same) low) in
        subst (λ x. f.is_le x (divide alpha (count_if (f.is_le x) ps)) ≡ true) same
          (subst (λ n. f.is_le s.p_value (divide alpha n) ≡ true) (rank-same s.p_value) passes)

    IsRejected-kept :
        (t : Tested f)
        → Among t (enumerate f divide 0 ps)
        → IsRejected alpha ps t.p_value
        → Among t kept
    IsRejected-kept t there due =
        Passes-rejected f lawful divide alpha (ordered f divide (enumerate f divide 0 ps)) t
          antitone (ordered-Rising f lawful divide (enumerate f divide 0 ps))
          (Among-ordered f lawful divide (enumerate f divide 0 ps) t there)
          (λ s among low.
            subst (λ n. f.is_le s.p_value (divide alpha n) ≡ true) (sym (rank-same s.p_value))
              (due s.p_value
                (p_value-Among 0 ps s
                  (ordered-Among f lawful divide (enumerate f divide 0 ps) s among))
                low))

    decision-IsRejected :
        (t : Tested f)
        → Among t (enumerate f divide 0 ps)
        → (any (λ (k : Tested f). k.index == t.index) kept ≡ true) ↔ IsRejected alpha ps t.p_value
    decision-IsRejected t there = (
      λ h.
          let (k, among, same) = any-Among (λ (k : Tested f). k.index == t.index) kept h in
          let listed = ordered-Among f lawful divide (enumerate f divide 0 ps) k (
            rejected-Among f lawful divide alpha (ordered f divide (enumerate f divide 0 ps)) k
              among) in
          subst (λ (v : Tested f). IsRejected alpha ps v.p_value)
            (index_unique 0 ps k t listed there (ground (arith, same))) (kept-IsRejected k among),
      λ due. any_of_Among _ kept t (IsRejected-kept t there due) (ground arith),
    )

    -- The decisions from an index on.
    decisions-IsStepDown :
        (n : ℕ) (rest : List f.Number)
        → ((t : Tested f) → Among t (enumerate f divide n rest) → Among t (enumerate f divide 0 ps))
        → IsStepDown alpha ps rest (decisions f divide (enumerate f divide n rest) kept)
    unfolding decisions
    decisions-IsStepDown n [] within = tt
    decisions-IsStepDown n (p ∷ rest) within = (
      decision-IsRejected _ (within _ (inl refl)),
      decisions-IsStepDown (suc n) rest (λ t h. within t (inr h)),
    )

  family_level-read :
      (v : Value) (alpha : f.Number) → family_level f v ≡ ok alpha → f.read v ≡ some alpha
  unfolding family_level
  family_level-read v alpha h =
      let (x, h1, e1) = returned_by (probability f v) _ alpha h in
      let (h2, t2, e2) = last_of_two (raise_if (f.is_le x f.nought) bad_probability) _ alpha h1 in
      let (h3, t3, e3) = last_of_two (raise_if (f.is_le f.unity x) bad_alpha) _ alpha h2 in
      subst (λ y. f.read v ≡ some y) (ok_eq h3) (probability-read f v x e1)

  -- Every result has one decision for each p-value, in their order. A p-value is rejected exactly when
  -- each p-value up to it is at most the level divided by the number of p-values that are not below
  -- that one. It is supposed that a quotient of a level does not fall when the divisor falls.
  pub holm_bonferroni-IsStepDown :
      (items : Items) (family_alpha : Value) (result : List Bool)
      → ((a : f.Number) (j k : ℕ)
          → f.is_le f.nought a ≡ true
          → 1 ≤ j
          → j ≤ k
          → f.is_le (divide a k) (divide a j) ≡ true)
      → holm_bonferroni f divide (arr items) family_alpha ≡ ok result
      → (alpha : f.Number) × (ps : List f.Number) × (f.read family_alpha ≡ some alpha)
        × (map f.read (elements items) ≡ map (λ (p : f.Number). some p) ps)
        × IsStepDown alpha ps ps result
  unfolding holm_bonferroni
  holm_bonferroni-IsStepDown items family_alpha result antitone h =
      let (h1, t1, e1) =
        last_of_two (raise_if (length (elements items) == 0) no_p_values) _ result h in
      let (h2, t2, e2) =
        last_of_two
          (raise_if (ltb max_diagnostic_cases (length (elements items))) too_many_p_values) _ result
          h1 in
      let (alpha, h3, level) = returned_by (family_level f family_alpha) _ result h2 in
      let (ps, h4, read) = returned_by (traverse (probability f) (elements items)) _ result h3 in
      let positive = family_level-positive f lawful divide family_alpha alpha level in
      (
        alpha,
        ps,
        family_level-read family_alpha alpha level,
        probabilities_read f (elements items) ps read,
        subst (IsStepDown alpha ps ps) (ok_eq h4)
            (decisions-IsStepDown alpha ps (λ j k. antitone alpha j k positive) 0 ps (λ t h. h)),
      )
