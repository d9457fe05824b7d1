-- ===== src/Prelude/Value.antt =====
-- The values of Python that the program tests by `isinstance`: those that JSON text is read into.
-- A finite `float` or `Decimal` is `real c k`, the number c / 10^k, which every one of them is
-- exactly; `nonfinite` is an infinity or a NaN; `other` is an object of any other class.
use Prim.Native.Nat.{ℕ}
use Prim.Native.String.{String}
use mathlib.Core.Bool.{Bool}
use mathlib.Core.Option.{Option, none, some}
use mathlib.Core.List.{List, [], ◌∷◌}
use text.Mathlib.Text.{◌==◌ as str_eq}
use prompt_performance_engin.Prelude.Tests.{if◌then◌else◌}

-- `negsuc n` is -(n + 1).
pub data ℤ : Type 0 where
  pos : ℕ → ℤ
  negsuc : ℕ → ℤ

mutual
  pub data Value : Type 0 where
    null : Value
    bool : Bool → Value
    int : ℤ → Value
    real : ℤ → ℕ → Value
    nonfinite : Value
    str : String → Value
    arr : Items → Value
    obj : Fields → Value
    other : Value

  pub data Items : Type 0 where
    nil : Items
    cons : Value → Items → Items

  pub data Fields : Type 0 where
    end : Fields
    field : String → Value → Fields → Fields

-- `list(d)`
abbrev pub keys : Fields → List String
keys end = []
keys (field k v fs) = k ∷ keys fs

-- `d.get(key)`
abbrev pub get : String → Fields → Option Value
get key end = none
get key (field k v fs) = if str_eq k key then some v else get key fs

abbrev pub elements : Items → List Value
elements nil = []
elements (cons v vs) = v ∷ elements vs
