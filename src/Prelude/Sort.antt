-- ===== src/Prelude/Sort.antt =====
-- Python's `sorted` by a text key: insertion in the order of code points.
use Prim.Native.Nat.{Ordering, suc}
use Prim.Native.String.{String, compare}
use mathlib.Core.Bool.{Bool, true, false}
use mathlib.Core.List.{List, [], ◌∷◌, map}
use mathlib.Core.Path.{◌≡◌}
use prompt_performance_engin.Prelude.Tests.{if◌then◌else◌}
use prompt_performance_engin.Prelude.Lists.{count, length}
use prompt_performance_engin.Prelude.{arith, refl}

-- `a <= b` on texts
abbrev pub text_leb : String → String → Bool
text_leb a b = elim (compare a b) [ Ordering.gt ↦ false | _ ↦ true ]

module _ {ℓ} {A : Type ℓ} (key : A → String) where
  unfoldable pub insert_by : A → List A → List A
  insert_by x [] = x ∷ []
  insert_by x (y ∷ ys) = if text_leb (key x) (key y) then x ∷ y ∷ ys else y ∷ insert_by x ys

  unfoldable pub sort_by : List A → List A
  unfolding insert_by
  sort_by [] = []
  sort_by (x ∷ xs) = insert_by x (sort_by xs)

  -- Sorting loses and repeats nothing.
  pub count-insert_by :
      (a : String) (x : A) (xs : List A)
      → count a (map key (insert_by x xs)) ≡ count a (key x ∷ map key xs)
  unfolding insert_by
  count-insert_by a x [] = refl
  count-insert_by a x (y ∷ ys) = ground (arith, count-insert_by a x ys)

  pub count-sort_by :
      (a : String) (xs : List A) → count a (map key (sort_by xs)) ≡ count a (map key xs)
  unfolding sort_by
  count-sort_by a [] = refl
  count-sort_by a (x ∷ xs) = ground (arith, count-insert_by a x (sort_by xs), count-sort_by a xs)

  length-insert_by : (x : A) (xs : List A) → length (insert_by x xs) ≡ suc (length xs)
  unfolding insert_by
  length-insert_by x [] = refl
  length-insert_by x (y ∷ ys) = ground (arith, length-insert_by x ys)

  pub length-sort_by : (xs : List A) → length (sort_by xs) ≡ length xs
  unfolding sort_by
  length-sort_by [] = refl
  length-sort_by (x ∷ xs) = omega (arith, length-insert_by x (sort_by xs), length-sort_by xs)

  -- Each element's key is at most the next one's.
  abbrev pub IsSorted : List A → Type 0
  IsSorted [] = Unit
  IsSorted (x ∷ []) = Unit
  IsSorted (x ∷ y ∷ ys) = (text_leb (key x) (key y) ≡ true) × IsSorted (y ∷ ys)
