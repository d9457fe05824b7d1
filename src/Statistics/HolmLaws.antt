-- ===== src/Statistics/HolmLaws.antt =====
-- What the step-down decisions of `holm_bonferroni` are good for.
use prompt_performance_engin.Prelude.{
  List, ◌≤◌, ◌≡◌, ℕ, All, false, length, true, ◌∷◌, ◌⊎◌, [], arith, if_induction, inl, inr, refl,
  subst, false≢true, sym, ◌∙◌, Bool, Bool-cases, count_if,
}
use prompt_performance_engin.Statistics.Floats.{Floats, IsOrdered, bad_probability, bad_alpha}
use prompt_performance_engin.Statistics.Holm.{
  Tested, before, insert_tested, ordered, rejected, family_level, probability,
}
use prompt_performance_engin.Statistics.ParetoLaws.{Among}
use prompt_performance_engin.Prelude.Value.{Value}
use prompt_performance_engin.Prelude.Result.{
  ok, returned_by, last_of_two, raise_if, ok_eq, raise_if-ok,
}

module _ (f : Floats) (lawful : IsOrdered f) (divide : f.Number → ℕ → f.Number) where
  -- Each p-value is at most those after it.
  abbrev Rising : List (Tested f) → Type 0
  Rising [] = Unit
  Rising (t ∷ ts) = All (λ (u : Tested f). f.is_le t.p_value u.p_value ≡ true) ts × Rising ts

  All-Among :
      (P : Tested f → Type 0) (ts : List (Tested f)) (t : Tested f) → All P ts → Among t ts → P t
  All-Among P [] t ps h = absurd h
  All-Among P (u ∷ us) t (p, ps) (inl same) = subst P same p
  All-Among P (u ∷ us) t (p, ps) (inr h) = All-Among P us t ps h

  All-insert_tested :
      (P : Tested f → Type 0) (t : Tested f) (us : List (Tested f))
      → P t
      → All P us
      → All P (insert_tested f divide t us)
  unfolding insert_tested
  All-insert_tested P t [] p ps = (p, tt)
  All-insert_tested P t (u ∷ us) p (q, qs) =
      if_induction (All P) (before f divide t u) (λ e. (p, (q, qs)))
        (λ e. (q, All-insert_tested P t us p qs))

  before-le : (t u : Tested f) → before f divide t u ≡ true → f.is_le t.p_value u.p_value ≡ true
  unfolding before
  before-le t u h = elim (lawful.total t.p_value u.p_value) [
    | inl e ↦ e
    | inr e ↦ ground (arith, h, e)
  ]

  after-le : (t u : Tested f) → before f divide t u ≡ false → f.is_le u.p_value t.p_value ≡ true
  unfolding before
  after-le t u h = ground (arith, h)

  insert_tested-Rising :
      (t : Tested f) (us : List (Tested f)) → Rising us → Rising (insert_tested f divide t us)
  unfolding insert_tested
  insert_tested-Rising t [] r = (tt, tt)
  insert_tested-Rising t (u ∷ us) (r, rs) =
      if_induction Rising (before f divide t u)
        (λ e. ((before-le t u e, above us t u (before-le t u e) r), (r, rs)))
        (λ e. (All-insert_tested _ t us (after-le t u e) r, insert_tested-Rising t us rs))
    where
      above :
          (us : List (Tested f)) (t u : Tested f)
          → f.is_le t.p_value u.p_value ≡ true
          → All (λ (v : Tested f). f.is_le u.p_value v.p_value ≡ true) us
          → All (λ (v : Tested f). f.is_le t.p_value v.p_value ≡ true) us
      above [] t u h r = tt
      above (v ∷ vs) t u h (r, rs) =
          (lawful.transitive t.p_value u.p_value v.p_value h r, above vs t u h rs)

  pub ordered-Rising : (ts : List (Tested f)) → Rising (ordered f divide ts)
  unfolding ordered
  ordered-Rising [] = tt
  ordered-Rising (t ∷ ts) = insert_tested-Rising t (ordered f divide ts) (ordered-Rising ts)

  Among-insert_tested :
      (t : Tested f) (us : List (Tested f)) (x : Tested f)
      → (t ≡ x) ⊎ Among x us
      → Among x (insert_tested f divide t us)
  unfolding insert_tested
  Among-insert_tested t [] x h = h
  Among-insert_tested t (u ∷ us) x (inl same) =
      if_induction (Among x) (before f divide t u) (λ e. inl same)
        (λ e. inr (Among-insert_tested t us x (inl same)))
  Among-insert_tested t (u ∷ us) x (inr (inl same)) =
      if_induction (Among x) (before f divide t u) (λ e. inr (inl same)) (λ e. inl same)
  Among-insert_tested t (u ∷ us) x (inr (inr h)) =
      if_induction (Among x) (before f divide t u) (λ e. inr (inr h))
        (λ e. inr (Among-insert_tested t us x (inr h)))

  pub Among-ordered :
      (ts : List (Tested f)) (x : Tested f) → Among x ts → Among x (ordered f divide ts)
  unfolding ordered
  Among-ordered [] x h = h
  Among-ordered (t ∷ ts) x (inl same) = Among-insert_tested t (ordered f divide ts) x (inl same)
  Among-ordered (t ∷ ts) x (inr h) =
      Among-insert_tested t (ordered f divide ts) x (inr (Among-ordered ts x h))

  Among-insert_tested-inverse :
      (t : Tested f) (us : List (Tested f)) (x : Tested f)
      → Among x (insert_tested f divide t us)
      → (t ≡ x) ⊎ Among x us
  unfolding insert_tested
  Among-insert_tested-inverse t [] x = λ h. h
  Among-insert_tested-inverse t (u ∷ us) x =
      if_induction (λ l. Among x l → (t ≡ x) ⊎ Among x (u ∷ us)) (before f divide t u) (λ e h. h)
        (λ e h. later h (Among-insert_tested-inverse t us x))
    where
      later :
          Among x (u ∷ insert_tested f divide t us)
          → (Among x (insert_tested f divide t us) → (t ≡ x) ⊎ Among x us)
          → (t ≡ x) ⊎ Among x (u ∷ us)
      later (inl same) back = inr (inl same)
      later (inr h) back = elim (back h) [ inl e ↦ inl e | inr e ↦ inr (inr e) ]

  pub ordered-Among :
      (ts : List (Tested f)) (x : Tested f) → Among x (ordered f divide ts) → Among x ts
  unfolding ordered
  ordered-Among [] x h = h
  ordered-Among (t ∷ ts) x h = elim (Among-insert_tested-inverse t (ordered f divide ts) x h) [
    | inl e ↦ inl e
    | inr e ↦ inr (ordered-Among ts x e)
  ]

  count_if-insert_tested :
      (test : Tested f → Bool) (t : Tested f) (us : List (Tested f))
      → count_if test (insert_tested f divide t us) ≡ count_if test (t ∷ us)
  unfolding insert_tested
  count_if-insert_tested test t [] = refl
  count_if-insert_tested test t (u ∷ us) = ground (arith, count_if-insert_tested test t us)

  pub count_if-ordered :
      (test : Tested f → Bool) (ts : List (Tested f))
      → count_if test (ordered f divide ts) ≡ count_if test ts
  unfolding ordered
  count_if-ordered test [] = refl
  count_if-ordered test (t ∷ ts) =
      ground (arith, count_if-insert_tested test t (ordered f divide ts), count_if-ordered test ts)

  le_refl : (a : f.Number) → f.is_le a a ≡ true
  le_refl a = elim (lawful.total a a) [ inl e ↦ e | inr e ↦ e ]

  -- How many of the tests have a p-value that is at least `a`.
  abbrev pub at_least : f.Number → List (Tested f) → ℕ
  at_least a ts = count_if (λ (r : Tested f). f.is_le a r.p_value) ts

  at_least-All :
      (a : f.Number) (ts : List (Tested f))
      → All (λ (v : Tested f). f.is_le a v.p_value ≡ true) ts
      → at_least a ts ≡ length ts
  at_least-All a [] h = refl
  at_least-All a (t ∷ ts) (h, hs) = ground (arith, h, at_least-All a ts hs)

  raise-All :
      (a : f.Number) (u : Tested f) (us : List (Tested f))
      → f.is_le a u.p_value ≡ true
      → All (λ (v : Tested f). f.is_le u.p_value v.p_value ≡ true) us
      → All (λ (v : Tested f). f.is_le a v.p_value ≡ true) us
  raise-All a u [] h r = tt
  raise-All a u (v ∷ vs) h (r, rs) =
      (lawful.transitive a u.p_value v.p_value h r, raise-All a u vs h rs)

  -- The p-value `a` passes at the rank it has among the tests.
  abbrev pub Passes : f.Number → List (Tested f) → f.Number → Type 0
  Passes alpha ts a = f.is_le a (divide alpha (at_least a ts)) ≡ true

  head-Passes :
      (alpha a : f.Number) (u : Tested f) (us : List (Tested f))
      → Rising (u ∷ us)
      → f.is_le a u.p_value ≡ true
      → f.is_le u.p_value (divide alpha (length (u ∷ us))) ≡ true
      → Passes alpha (u ∷ us) a
  head-Passes alpha a u us (r, rs) h e =
      subst (λ n. f.is_le a (divide alpha n) ≡ true)
        (sym (at_least-All a (u ∷ us) (h, raise-All a u us h r)))
        (lawful.transitive a u.p_value (divide alpha (length (u ∷ us))) h e)

  pub rejected-Among :
      (alpha : f.Number) (ts : List (Tested f)) (t : Tested f)
      → Among t (rejected f divide alpha ts)
      → Among t ts
  unfolding rejected
  rejected-Among alpha [] t = λ h. h
  rejected-Among alpha (u ∷ us) t =
      if_induction (λ l. Among t l → Among t (u ∷ us))
        (f.is_le u.p_value (divide alpha (length (u ∷ us))))
        (λ e h. elim h [ inl same ↦ inl same | inr rest ↦ inr (rejected-Among alpha us t rest) ])
        (λ e h. absurd h)

  -- Below a rejected test every p-value passes.
  pub rejected-Passes :
      (alpha : f.Number) (ts : List (Tested f)) (s t : Tested f)
      → Rising ts
      → Among t (rejected f divide alpha ts)
      → Among s ts
      → f.is_le s.p_value t.p_value ≡ true
      → Passes alpha ts s.p_value
  unfolding rejected
  rejected-Passes alpha [] s t rising = λ h there low. absurd h
  rejected-Passes alpha (u ∷ us) s t (r, rs) =
      if_induction
        (λ l.
          Among t l
          → Among s (u ∷ us)
          → f.is_le s.p_value t.p_value ≡ true
          → Passes alpha (u ∷ us) s.p_value)
        (f.is_le u.p_value (divide alpha (length (u ∷ us))))
        (λ e h there low. elim (Bool-cases (f.is_le s.p_value u.p_value)) [
          | inl under ↦ head-Passes alpha s.p_value u us (r, rs) under e
          | inr over ↦ later over (rejected-Passes alpha us s t rs) h there low
        ])
        (λ e h. absurd h)
    where
      later :
          f.is_le s.p_value u.p_value ≡ false
          → (Among t (rejected f divide alpha us)
              → Among s us
              → f.is_le s.p_value t.p_value ≡ true
              → Passes alpha us s.p_value)
          → Among t (u ∷ rejected f divide alpha us)
          → Among s (u ∷ us)
          → f.is_le s.p_value t.p_value ≡ true
          → Passes alpha (u ∷ us) s.p_value
      later over back (inl top) there low = absurd (
          false≢true
            (sym over ∙ subst (λ (v : Tested f). f.is_le s.p_value v.p_value ≡ true) (sym top) low))
      later over back (inr h) (inl same) low = absurd (
          false≢true (
            sym over
            ∙ subst (λ (v : Tested f). f.is_le v.p_value u.p_value ≡ true) same
                (le_refl u.p_value)))
      later over back (inr h) (inr there) low =
          subst (λ n. f.is_le s.p_value (divide alpha n) ≡ true) (ground (arith, over))
            (back h there low)

  at_least-positive : (s : Tested f) (ts : List (Tested f)) → Among s ts → 1 ≤ at_least s.p_value ts
  at_least-positive s [] h = absurd h
  at_least-positive s (t ∷ ts) (inl same) =
      subst (λ (v : Tested f). 1 ≤ at_least v.p_value (t ∷ ts)) same
        (ground (arith, le_refl t.p_value))
  at_least-positive s (t ∷ ts) (inr h) = ground (arith, at_least-positive s ts h)

  -- A quotient of `a` does not fall when the divisor falls.
  abbrev pub IsAntitone : f.Number → Type 0
  IsAntitone a = (j k : ℕ) → 1 ≤ j → j ≤ k → f.is_le (divide a k) (divide a j) ≡ true

  -- A test below which every p-value passes is rejected.
  pub Passes-rejected :
      (alpha : f.Number) (ts : List (Tested f)) (t : Tested f)
      → IsAntitone alpha
      → Rising ts
      → Among t ts
      → ((s : Tested f)
          → Among s ts
          → f.is_le s.p_value t.p_value ≡ true
          → Passes alpha ts s.p_value)
      → Among t (rejected f divide alpha ts)
  unfolding rejected
  Passes-rejected alpha [] t antitone rising there pass = absurd there
  Passes-rejected alpha (u ∷ us) t antitone (r, rs) there pass =
      let low : f.is_le u.p_value t.p_value ≡ true = elim there [
        | inl same ↦
            subst (λ (v : Tested f). f.is_le u.p_value v.p_value ≡ true) same (le_refl u.p_value)
        | inr h ↦ All-Among _ us t r h
      ] in
      let whole : at_least u.p_value (u ∷ us) ≡ length (u ∷ us) =
        at_least-All u.p_value (u ∷ us) (le_refl u.p_value, r) in
      let top : f.is_le u.p_value (divide alpha (length (u ∷ us))) ≡ true =
        subst (λ n. f.is_le u.p_value (divide alpha n) ≡ true) whole (pass u (inl refl) low) in
      let fewer = λ (s : Tested f) (h : Among s us) (below_ : f.is_le s.p_value t.p_value ≡ true).
        lawful.transitive s.p_value (divide alpha (at_least s.p_value (u ∷ us)))
          (divide alpha (at_least s.p_value us)) (pass s (inr h) below_)
          (antitone (at_least s.p_value us) (at_least s.p_value (u ∷ us)) (at_least-positive s us h)
            (ground arith)) in
      if_induction (Among t) (f.is_le u.p_value (divide alpha (length (u ∷ us))))
        (λ e. elim there [
          | inl same ↦ inl same
          | inr h ↦ inr (Passes-rejected alpha us t antitone rs h fewer)
        ])
        (λ e. absurd (false≢true (sym e ∙ top)))

  pub family_level-positive :
      (v : Value) (alpha : f.Number) → family_level f v ≡ ok alpha → f.is_le f.nought alpha ≡ true
  unfolding family_level
  family_level-positive v alpha h =
      let (x, h1, e1) = returned_by (probability f v) _ alpha h in
      let (h2, t2, e2) = last_of_two (raise_if (f.is_le x f.nought) bad_probability) _ alpha h1 in
      let (h3, t3, e3) = last_of_two (raise_if (f.is_le f.unity x) bad_alpha) _ alpha h2 in
      subst (λ y. f.is_le f.nought y ≡ true) (ok_eq h3)
        (elim (lawful.total f.nought x) [
          | inl e ↦ e
          | inr e ↦ absurd (false≢true (sym (raise_if-ok bad_probability e2) ∙ e))
        ])
