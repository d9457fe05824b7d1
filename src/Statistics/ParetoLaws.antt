-- ===== src/Statistics/ParetoLaws.antt =====
-- What the Pareto front is.
use prompt_performance_engin.Prelude.{
  List, ◌≤◌, Bool, ◌∷◌, any, ◌≡◌, true, ◌&&◌, ◌⊎◌, Bool-cases, [], count_if, false, ℕ, arith, inl,
  refl, ◌<◌, ap, false≢true, inr, sym, ◌∙◌, select, str_eq, suc, zero, if_induction, not, String,
  map,
}
use prompt_performance_engin.Statistics.Floats.{Floats, IsOrdered}
use prompt_performance_engin.Statistics.Pareto.{
  dominates, is_dominated, Candidate, front, pareto_nondominated_ids, read_candidates,
}
use prompt_performance_engin.Prelude.Value.{Value}
use prompt_performance_engin.Prelude.Result.{ok, returned_by, ok_eq}

abbrev pub Among : {A : Type 0} → A → List A → Type 0
Among x [] = ⊥
Among x (y ∷ ys) = (y ≡ x) ⊎ Among x ys

pub any-Among :
    {A : Type 0} (test : A → Bool) (xs : List A)
    → any test xs ≡ true
    → (x : A) × Among x xs × (test x ≡ true)
any-Among test [] h = cc
any-Among test (x ∷ xs) h = elim (Bool-cases (test x)) [
  | inl e ↦ (x, inl refl, e)
  | inr e ↦
      let (y, there, holds) = any-Among test xs (ground (arith, h, e)) in (y, inr there, holds)
]

count_if-le :
    {A : Type 0} (p q : A → Bool) (xs : List A)
    → ((x : A) → p x ≡ true → q x ≡ true)
    → count_if p xs ≤ count_if q xs
count_if-le p q [] h = omega arith
count_if-le p q (x ∷ xs) h = ground (arith, h x, count_if-le p q xs h)

-- One element more passes the weaker test.
count_if-less :
    {A : Type 0} (p q : A → Bool) (xs : List A) (x : A)
    → ((x : A) → p x ≡ true → q x ≡ true)
    → Among x xs
    → p x ≡ false
    → q x ≡ true
    → count_if p xs < count_if q xs
count_if-less p q [] x h there fails passes = absurd there
count_if-less p q (y ∷ ys) x h (inl e) fails passes =
    let py : p y ≡ false = ap p e ∙ fails in
    let qy : q y ≡ true = ap q e ∙ passes in ground (arith, count_if-le p q ys h, py, qy)
count_if-less p q (y ∷ ys) x h (inr there) fails passes =
    ground (arith, h y, count_if-less p q ys x h there fails passes)

module _ (f : Floats) (ordered : IsOrdered f) where
  -- At least as good on every measure.
  abbrev as_good : Candidate f → Candidate f → Bool
  as_good l r = f.is_le r.quality l.quality && f.is_le l.cost r.cost && f.is_le l.latency r.latency

  and_elim : (a b : Bool) → (a && b) ≡ true → (a ≡ true) × (b ≡ true)
  and_elim true b h = (refl, h)
  and_elim false b h = cc

  as_good-transitive :
      (a b c : Candidate f) → as_good a b ≡ true → as_good b c ≡ true → as_good a c ≡ true
  as_good-transitive a b c h k = ground (
    arith,
    h,
    k,
    ordered.transitive c.quality b.quality a.quality,
    ordered.transitive a.cost b.cost c.cost,
    ordered.transitive a.latency b.latency c.latency,
  )

  dominates-as_good :
      (a b : Candidate f) → dominates f a b ≡ true → (as_good a b ≡ true) × (as_good b a ≡ false)
  unfolding dominates
  dominates-as_good a b h = (ground (arith, h), ground (arith, h))

  as_good-dominates :
      (a b : Candidate f) → as_good a b ≡ true → as_good b a ≡ false → dominates f a b ≡ true
  unfolding dominates
  as_good-dominates a b h k = ground (arith, h, k)

  dominates-transitive :
      (a b c : Candidate f)
      → dominates f a b ≡ true
      → dominates f b c ≡ true
      → dominates f a c ≡ true
  dominates-transitive a b c h k =
      let (ab, ba) = dominates-as_good a b h in
      let (bc, cb) = dominates-as_good b c k in
      as_good-dominates a c (as_good-transitive a b c ab bc) (elim (Bool-cases (as_good c a)) [
        | inl ca ↦ absurd (false≢true (sym cb ∙ as_good-transitive c a b ca ab))
        | inr fails ↦ fails
      ])

  dominates-irreflexive : (a : Candidate f) → dominates f a a ≡ false
  dominates-irreflexive a = elim (Bool-cases (dominates f a a)) [
    | inl h ↦
        let (holds, fails) = dominates-as_good a a h in absurd (false≢true (sym fails ∙ holds))
    | inr fails ↦ fails
  ]

  -- How many dominate a candidate.
  abbrev rank : List (Candidate f) → Candidate f → ℕ
  rank cs c = count_if (λ (o : Candidate f). dominates f o c) cs

  above_it :
      (cs : List (Candidate f)) (c : Candidate f)
      → is_dominated f cs c ≡ true
      → (d : Candidate f) × Among d cs × (dominates f d c ≡ true) × (rank cs d < rank cs c)
  unfolding is_dominated
  above_it cs c h =
      let (d, there, test) = any-Among _ cs h in
      let above : dominates f d c ≡ true = ground (arith, test) in
      (
        d,
        there,
        above,
        count_if-less (λ (o : Candidate f). dominates f o d) (λ (o : Candidate f). dominates f o c)
            cs d (λ o od. dominates-transitive o d c od above) there (dominates-irreflexive d)
            above,
      )

  -- Above a dominated candidate there is one that is not dominated, within as many steps as there
  -- are candidates above it.
  abbrev pub Summit : List (Candidate f) → Candidate f → Type 0
  Summit cs c =
      (e : Candidate f) × Among e cs × (is_dominated f cs e ≡ false) × (dominates f e c ≡ true)

  climb :
      (n : ℕ) (cs : List (Candidate f)) (c : Candidate f)
      → rank cs c ≤ n
      → is_dominated f cs c ≡ true
      → Summit cs c
  climb zero cs c small h =
      let (d, there, above, fewer) = above_it cs c h in
      absurd (nothing_less {n = rank cs d} (omega (arith, fewer, small)))
    where
      nothing_less : {n : ℕ} → n < 0 → ⊥
      nothing_less h = omega arith
  climb (suc n) cs c small h =
      let (d, there, above, fewer) = above_it cs c h in
      elim (Bool-cases (is_dominated f cs d)) [
        | inl again ↦
            let (e, among, free, over) = climb n cs d (omega (arith, fewer, small)) again in
            (e, among, free, dominates-transitive e d c over above)
        | inr free ↦ (d, there, free, above)
      ]

  -- The candidates that are returned are those that no candidate with another id dominates, in the
  -- order of their ids, and each of the others is dominated by one that is returned.
  abbrev pub IsFront : List (Candidate f) → List (Candidate f) → Type 0
  IsFront cs kept =
      ((c : Candidate f)
        → Among c kept
        → Among c cs
          × ((o : Candidate f) → Among o cs → str_eq o.id c.id ≡ false → dominates f o c ≡ false))
      × ((c : Candidate f)
          → Among c cs
          → Among c kept ⊎ ((e : Candidate f) × Among e kept × (dominates f e c ≡ true)))

  first_or_later :
      (test : Candidate f → Bool) (x : Candidate f) (ys cs : List (Candidate f)) (c : Candidate f)
      → test x ≡ true
      → (Among c ys → Among c cs × (test c ≡ true))
      → Among c (x ∷ ys)
      → Among c (x ∷ cs) × (test c ≡ true)
  first_or_later test x ys cs c e later (inl same) = (inl same, ap test (sym same) ∙ e)
  first_or_later test x ys cs c e later (inr h) = let (there, holds) = later h in (inr there, holds)

  select-Among :
      (test : Candidate f → Bool) (cs : List (Candidate f)) (c : Candidate f)
      → Among c (select test cs)
      → Among c cs × (test c ≡ true)
  select-Among test [] c = λ h. absurd h
  select-Among test (x ∷ cs) c =
      if_induction (λ l. Among c l → Among c (x ∷ cs) × (test c ≡ true)) (test x)
        (λ e h. first_or_later test x (select test cs) cs c e (select-Among test cs c) h)
        (λ e h. let (there, holds) = select-Among test cs c h in (inr there, holds))

  Among-select :
      (test : Candidate f → Bool) (cs : List (Candidate f)) (c : Candidate f)
      → Among c cs
      → test c ≡ true
      → Among c (select test cs)
  Among-select test [] c h k = h
  Among-select test (x ∷ cs) c (inl same) k =
      if_induction (λ l. Among c l) (test x) (λ e. inl same)
        (λ e. absurd (false≢true (sym e ∙ ap test same ∙ k)))
  Among-select test (x ∷ cs) c (inr h) k =
      if_induction (λ l. Among c l) (test x) (λ e. inr (Among-select test cs c h k))
        (λ e. Among-select test cs c h k)

  none_of_any :
      (test : Candidate f → Bool) (cs : List (Candidate f)) (c : Candidate f)
      → any test cs ≡ false
      → Among c cs
      → test c ≡ false
  none_of_any test [] c h there = absurd there
  none_of_any test (x ∷ cs) c h (inl same) = ap test (sym same) ∙ ground (arith, h)
  none_of_any test (x ∷ cs) c h (inr there) = none_of_any test cs c (ground (arith, h)) there

  front-kept :
      (cs : List (Candidate f)) (c : Candidate f)
      → Among c (front f cs)
      → Among c cs
        × ((o : Candidate f) → Among o cs → str_eq o.id c.id ≡ false → dominates f o c ≡ false)
  unfolding front is_dominated
  front-kept cs c h =
      let (there, free) = select-Among _ cs c h in
      let test = λ (o : Candidate f). not (str_eq o.id c.id) && dominates f o c in
      let nobody : any test cs ≡ false = ground (arith, free) in
      (there, λ o among other. ground (arith, none_of_any test cs o nobody among, other))

  front-covered :
      (cs : List (Candidate f)) (c : Candidate f)
      → Among c cs
      → Among c (front f cs) ⊎ ((e : Candidate f) × Among e (front f cs) × (dominates f e c ≡ true))
  unfolding front
  front-covered cs c h = elim (Bool-cases (is_dominated f cs c)) [
    | inl e ↦
        let (top, among, free, over) = climb (rank cs c) cs c (omega arith) e in
        inr (top, Among-select _ cs top among (ap not free), over)
    | inr e ↦ inl (Among-select _ cs c h (ap not e))
  ]

  -- Every result has the ids of the front of the candidates that were read: none of them is
  -- dominated by a candidate with another id, and every other candidate is dominated by one of them.
  pub pareto_nondominated_ids-IsFront :
      (v : Value) (ids : List String)
      → pareto_nondominated_ids f v ≡ ok ids
      → (cs : List (Candidate f)) × (kept : List (Candidate f)) × (read_candidates f v ≡ ok cs)
        × (ids ≡ map (λ (c : Candidate f). c.id) kept)
        × IsFront cs kept
  unfolding pareto_nondominated_ids
  pareto_nondominated_ids-IsFront v ids h =
      let (cs, returned, came) = returned_by (read_candidates f v) _ ids h in
      (cs, front f cs, came, sym (ok_eq returned), (front-kept cs, front-covered cs))
