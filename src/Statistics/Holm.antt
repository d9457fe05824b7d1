-- ===== src/Statistics/Holm.antt =====
-- `holm_bonferroni` of src/prompt_performance_engine/frontier_statistics.py.
use prompt_performance_engin.Statistics.Floats.{
  Error, Floats, bad_probability, bad_alpha, no_p_values, too_many_p_values,
}
use prompt_performance_engin.Prelude.{
  List, none, some, ℕ, Bool, ◌∷◌, [], if◌then◌else◌, map, not, suc, any, length, ◌&&◌, ◌||◌, leb,
  ◌==◌, ltb,
}
use prompt_performance_engin.Prelude.Result.{Result, ok, err, ◌>>=◌, ◌>>◌, raise_if, traverse}
use prompt_performance_engin.Prelude.Value.{Value, arr, elements}
use prompt_performance_engin.Statistics.Safety.{max_diagnostic_cases}

-- An item of `enumerate(normalized)`.
pub record Tested (f : Floats) : Type 0 where
  pub index : ℕ
  pub p_value : f.Number

-- `_probability`
unfoldable pub probability : (f : Floats) → Value → Result Error f.Number
probability f v = elim (f.read v) [
  | none ↦ err bad_probability
  | some x ↦ if f.is_le f.nought x && f.is_le x f.unity then ok x else err bad_probability
]

-- A family level above 0 and below 1.
unfoldable pub family_level : (f : Floats) → Value → Result Error f.Number
family_level f v = do
  alpha ← probability f v
  raise_if (f.is_le alpha f.nought) bad_probability
  raise_if (f.is_le f.unity alpha) bad_alpha
  ok alpha

-- `divide` is the division of a float by a positive `int`.
module _ (f : Floats) (divide : f.Number → ℕ → f.Number) where
  abbrev pub enumerate : ℕ → List f.Number → List (Tested f)
  enumerate n [] = []
  enumerate n (p ∷ ps) = record { index = n; p_value = p } ∷ enumerate (suc n) ps

  -- `(p, index)` of `t` is at most that of `u`.
  unfoldable pub before : Tested f → Tested f → Bool
  before t u =
      not (f.is_le u.p_value t.p_value) || (f.is_le t.p_value u.p_value && leb t.index u.index)

  unfoldable pub insert_tested : Tested f → List (Tested f) → List (Tested f)
  insert_tested t [] = t ∷ []
  insert_tested t (u ∷ us) = if before t u then t ∷ u ∷ us else u ∷ insert_tested t us

  -- `sorted(enumerate(normalized), key=...)`
  unfoldable pub ordered : List (Tested f) → List (Tested f)
  ordered [] = []
  ordered (t ∷ ts) = insert_tested t (ordered ts)

  -- What the loop decides to reject before its `break`; the items left are those not yet ranked.
  unfoldable pub rejected : f.Number → List (Tested f) → List (Tested f)
  rejected alpha [] = []
  rejected alpha (t ∷ ts) =
      let later = rejected alpha ts in
      if f.is_le t.p_value (divide alpha (length (t ∷ ts))) then t ∷ later else []

  unfoldable pub decisions : List (Tested f) → List (Tested f) → List Bool
  decisions tested kept =
      map (λ (t : Tested f). any (λ (k : Tested f). k.index == t.index) kept) tested

  unfoldable pub holm_bonferroni : Value → Value → Result Error (List Bool)
  holm_bonferroni (arr items) family_alpha = do
    raise_if (length (elements items) == 0) no_p_values
    raise_if (ltb max_diagnostic_cases (length (elements items))) too_many_p_values
    alpha ← family_level f family_alpha
    normalized ← traverse (probability f) (elements items)
    ok (decisions (enumerate 0 normalized) (rejected alpha (ordered (enumerate 0 normalized))))
  holm_bonferroni value family_alpha = err no_p_values
