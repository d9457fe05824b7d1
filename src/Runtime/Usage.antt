-- ===== src/Runtime/Usage.antt =====
-- `_aggregate_usage` of src/prompt_performance_engine/runtime.py: the totals of what the calls used.
use prompt_performance_engin.Prelude.{
  String, List, [], ◌∷◌, ◌+◌, ◌-◌, Option, none, some, ltb, if◌then◌else◌, str_eq, ◌++◌, ◌≡◌,
  eq_refl, false, refl, ◌∙◌, Bool-cases, ap, inl, sym, inr, arith, eq_iff, subst,
}
use prompt_performance_engin.Prelude.Value.{Value, ℤ, Fields, field, end}

infixl 6 ◌+ℤ◌
unfoldable pub ◌+ℤ◌ : ℤ → ℤ → ℤ
ℤ.pos m +ℤ ℤ.pos n = ℤ.pos (m + n)
ℤ.negsuc m +ℤ ℤ.negsuc n = ℤ.negsuc (1 + m + n)
ℤ.pos m +ℤ ℤ.negsuc n = if ltb n m then ℤ.pos (m - 1 - n) else ℤ.negsuc (n - m)
ℤ.negsuc m +ℤ ℤ.pos n = if ltb m n then ℤ.pos (n - 1 - m) else ℤ.negsuc (m - n)

abbrev pub Totals : Type 0
Totals = List (String × ℤ)

-- `totals.get(key)`
unfoldable pub total_of : String → Totals → Option ℤ
total_of key [] = none
total_of key ((k, n) ∷ rest) = if str_eq k key then some n else total_of key rest

-- `totals[key] = totals.get(key, 0) + value`
unfoldable pub add_total : String → ℤ → Totals → Totals
add_total key value [] = (key, ℤ.pos 0 +ℤ value) ∷ []
add_total key value ((k, n) ∷ rest) =
    let later = add_total key value rest in
    if str_eq k key then (k, n +ℤ value) ∷ rest else (k, n) ∷ later

unfoldable pub add_usage : Fields → Totals → Totals
add_usage end totals = totals
add_usage (field key (Value.int n) rest) totals = add_usage rest (add_total key n totals)
add_usage (field key value rest) totals = add_usage rest totals

unfoldable pub add_calls : List Fields → Totals → Totals
add_calls [] totals = totals
add_calls (usage ∷ rest) totals = add_calls rest (add_usage usage totals)

unfoldable pub aggregate_usage : List Fields → Totals
aggregate_usage usages = add_calls usages []

-- The integers that stand under a key, in the order of the calls.
unfoldable pub integers_under : String → Fields → List ℤ
integers_under key end = []
integers_under key (field k (Value.int n) rest) =
    let later = integers_under key rest in if str_eq k key then n ∷ later else later
integers_under key (field k value rest) = integers_under key rest

abbrev pub all_integers_under : String → List Fields → List ℤ
all_integers_under key [] = []
all_integers_under key (usage ∷ rest) = integers_under key usage ++ all_integers_under key rest

abbrev pub sum_from : ℤ → List ℤ → ℤ
sum_from n [] = n
sum_from n (m ∷ ms) = sum_from (n +ℤ m) ms

-- The sum of the integers, none when there is none.
abbrev pub sum_of : List ℤ → Option ℤ
sum_of [] = none
sum_of (n ∷ ns) = some (sum_from (ℤ.pos 0) (n ∷ ns))

abbrev or_zero : Option ℤ → ℤ
or_zero none = ℤ.pos 0
or_zero (some n) = n

abbrev accumulate : Option ℤ → List ℤ → Option ℤ
accumulate o [] = o
accumulate o (n ∷ ns) = accumulate (some (or_zero o +ℤ n)) ns

accumulate-sum_from : (n : ℤ) (ns : List ℤ) → accumulate (some n) ns ≡ some (sum_from n ns)
accumulate-sum_from n [] = refl
accumulate-sum_from n (m ∷ ms) = accumulate-sum_from (n +ℤ m) ms

accumulate-append :
    (o : Option ℤ) (ms ns : List ℤ) → accumulate o (ms ++ ns) ≡ accumulate (accumulate o ms) ns
accumulate-append o [] ns = refl
accumulate-append o (m ∷ ms) ns = accumulate-append (some (or_zero o +ℤ m)) ms ns

accumulate-sum_of : (ns : List ℤ) → accumulate none ns ≡ sum_of ns
accumulate-sum_of [] = refl
accumulate-sum_of (n ∷ ns) = accumulate-sum_from (ℤ.pos 0 +ℤ n) ns

total_of-add_total :
    (key : String) (n : ℤ) (totals : Totals)
    → total_of key (add_total key n totals) ≡ some (or_zero (total_of key totals) +ℤ n)
unfolding total_of add_total
total_of-add_total key n [] = rw (eq_refl key) refl
total_of-add_total key n ((k, m) ∷ rest) = ground (arith, total_of-add_total key n rest)

total_of_other :
    (key k : String) (n : ℤ) (totals : Totals)
    → str_eq k key ≡ false
    → total_of key (add_total k n totals) ≡ total_of key totals
unfolding total_of add_total
total_of_other key k n [] h = rw h refl
total_of_other key k n ((j, m) ∷ rest) h = elim (Bool-cases (str_eq j k)) [
  | inl e ↦ ground (arith, h, e, (eq_iff j k).0 e)
  | inr e ↦ ground (arith, h, e, total_of_other key k n rest h)
]

total_of-add_usage :
    (key : String) (usage : Fields) (totals : Totals)
    → total_of key (add_usage usage totals)
      ≡ accumulate (total_of key totals) (integers_under key usage)
unfolding add_usage integers_under
total_of-add_usage key end totals = refl
total_of-add_usage key (field k (Value.int n) rest) totals =
    total_of-add_usage key rest (add_total k n totals) ∙ elim (Bool-cases (str_eq k key)) [
      | inl e ↦ rw e (
          ap (λ o. accumulate o (integers_under key rest))
            (subst
              (λ x. total_of key (add_total x n totals) ≡ some (or_zero (total_of key totals) +ℤ n))
              (sym ((eq_iff k key).0 e)) (total_of-add_total key n totals)))
      | inr e ↦ rw (e, total_of_other key k n totals e) refl
    ]
total_of-add_usage key (field k _ rest) totals = total_of-add_usage key rest totals

total_of-add_calls :
    (key : String) (usages : List Fields) (totals : Totals)
    → total_of key (add_calls usages totals)
      ≡ accumulate (total_of key totals) (all_integers_under key usages)
unfolding add_calls
total_of-add_calls key [] totals = refl
total_of-add_calls key (usage ∷ rest) totals =
    total_of-add_calls key rest (add_usage usage totals)
    ∙ ap (λ o. accumulate o (all_integers_under key rest)) (total_of-add_usage key usage totals)
    ∙ sym (
        accumulate-append (total_of key totals) (integers_under key usage)
          (all_integers_under key rest))

-- The total under a key is the sum of the integers that the calls report under it, from first to
-- last; without one the key has no total.
pub aggregate_usage_lem :
    (key : String) (usages : List Fields)
    → total_of key (aggregate_usage usages) ≡ sum_of (all_integers_under key usages)
unfolding aggregate_usage total_of
aggregate_usage_lem key usages =
    total_of-add_calls key usages [] ∙ accumulate-sum_of (all_integers_under key usages)
