-- ===== src/Prelude/Dict.antt =====
-- Sets of keys: `set(d) == set(expected)` and its halves.
use Prim.Native.String.{String}
use mathlib.Core.Bool.{Bool, ◌&&◌}
use mathlib.Core.List.{List}
use prompt_performance_engin.Prelude.Lists.{contains, all}

-- `set(xs) <= set(ys)`
abbrev pub subset : List String → List String → Bool
subset xs ys = all (λ x. contains x ys) xs

-- `set(xs) == set(ys)`
abbrev pub same_set : List String → List String → Bool
same_set xs ys = subset xs ys && subset ys xs
