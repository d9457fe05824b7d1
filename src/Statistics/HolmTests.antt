-- ===== src/Statistics/HolmTests.antt =====
-- `holm_bonferroni` at three p-values, with thousandths for the floats.
use native.Mathlib.Nat.{le-div_iff_mul-le, mul-div-le, mul-le-mul_left, mul_comm}
use prompt_performance_engin.Prelude.{
  List, none, some, ℕ, ◌≤◌, ◌/◌, ◌*◌, Option, leb, ◌≡◌, true, arith, ◌∷◌, ◌⊎◌, Bool-cases, [], inl,
  inr, refl, false, if◌then◌else◌, ◌==◌, map,
}
use prompt_performance_engin.Prelude.Value.{Value, ℤ, arr, cons, nil}
use prompt_performance_engin.Statistics.Floats.{Floats, IsOrdered}
use prompt_performance_engin.Statistics.Holm.{
  holm_bonferroni, family_level, probability, before, insert_tested, decisions, ordered, rejected,
}
use prompt_performance_engin.Prelude.Result.{ok}
use prompt_performance_engin.Statistics.HolmDecisions.{IsStepDown, holm_bonferroni-IsStepDown}

abbrev thousandths : Value → Option ℕ
thousandths (Value.real (ℤ.pos c) k) = if k == 3 then some c else none
thousandths value = none

abbrev fractions : Floats
fractions = record { Number = ℕ; is_le = leb; read = thousandths; nought = 0; unity = 1000 }

fractions-IsOrdered : IsOrdered fractions
fractions-IsOrdered = record {
  total = λ a b. either a b;
  transitive = λ a b c h k. ground (arith, h, k);
}
  where
    either : (a b : ℕ) → (leb a b ≡ true) ⊎ (leb b a ≡ true)
    either a b = elim (Bool-cases (leb a b)) [ inl e ↦ inl e | inr e ↦ inr (ground (arith, e)) ]

abbrev divide : ℕ → ℕ → ℕ
divide a k = a / k

leb_of_le : (a b : ℕ) → a ≤ b → leb a b ≡ true
leb_of_le a b h = ground (arith, h)

divide_falls : (a j k : ℕ) → leb 0 a ≡ true → 1 ≤ j → j ≤ k → leb (divide a k) (divide a j) ≡ true
divide_falls a j k positive h below_ =
    let part : (a / k) * j ≤ (a / k) * k = mul-le-mul_left (a / k) below_ in
    let whole : k * (a / k) ≤ a = mul-div-le a k in
    let same : k * (a / k) ≡ (a / k) * k = mul_comm k (a / k) in
    leb_of_le (a / k) (a / j) ((le-div_iff_mul-le h).1 (omega (arith, part, whole, same)))

abbrev thousandth : ℕ → Value
thousandth n = Value.real (ℤ.pos n) 3

-- At the level 0.05 the thresholds are 0.016, 0.025 and 0.05.
abbrev p_values : Value
p_values = arr (cons (thousandth 60) (cons (thousandth 10) (cons (thousandth 20) nil)))

stepped_down :
    holm_bonferroni fractions divide p_values (thousandth 50) ≡ ok (false ∷ true ∷ true ∷ [])
unfolding holm_bonferroni family_level probability before insert_tested ordered rejected decisions
stepped_down = refl

holm_bonferroni-IsStepDown_example :
    (alpha : ℕ) × (ps : List ℕ) × (some 50 ≡ some alpha)
    × (map thousandths (thousandth 60 ∷ thousandth 10 ∷ thousandth 20 ∷ [])
        ≡ map (λ (p : ℕ). some p) ps)
    × IsStepDown fractions fractions-IsOrdered divide alpha ps ps (false ∷ true ∷ true ∷ [])
holm_bonferroni-IsStepDown_example =
    holm_bonferroni-IsStepDown fractions fractions-IsOrdered divide
      (cons (thousandth 60) (cons (thousandth 10) (cons (thousandth 20) nil))) (thousandth 50)
      (false ∷ true ∷ true ∷ []) divide_falls stepped_down
