-- ===== src/Prelude/Result.antt =====
-- Python code that returns or raises.
use mathlib.Core.Path.{◌≡◌, refl, ap}
use mathlib.Core.Bool.{Bool, true, false}
use mathlib.Core.List.{List, [], ◌∷◌}

pub data Result {ℓ} (E : Type ℓ) (A : Type ℓ) : Type ℓ where
  ok : A → Result E A
  err : E → Result E A

module _ {ℓ} {E A B : Type ℓ} where
  infixl 5 ◌>>=◌ ◌>>◌
  abbrev pub ◌>>=◌ : Result E A → (A → Result E B) → Result E B
  ok a >>= f = f a
  err e >>= f = err e

  abbrev pub ◌>>◌ : Result E A → Result E B → Result E B
  ok a >> n = n
  err e >> n = err e

  -- What a chain returns, its last step returned, at what the first step returned.
  pub returned_by :
      (first : Result E A) (then_ : A → Result E B) (b : B)
      → (first >>= then_) ≡ ok b
      → (a : A) × (then_ a ≡ ok b) × (first ≡ ok a)
  returned_by (err e) then_ b h = cc
  returned_by (ok a) then_ b h = (a, h, refl)

module _ {ℓ} {E A B : Type ℓ} where
  -- The last of two steps returned, and so did the first.
  pub last_of_two :
      (first : Result E A) (second : Result E B) (b : B)
      → (first >> second) ≡ ok b
      → (second ≡ ok b) × (a : A) × (first ≡ ok a)
  last_of_two (err e) second b h = cc
  last_of_two (ok a) second b h = (h, a, refl)

-- `if not test: raise error`
abbrev pub ensure {ℓ} : {E : Type ℓ} → Bool → E → Result E Unit
ensure true e = ok tt
ensure false e = err e

-- `if test: raise error`
abbrev pub raise_if {ℓ} : {E : Type ℓ} → Bool → E → Result E Unit
raise_if true e = err e
raise_if false e = ok tt

abbrev or_else {ℓ} : {E A : Type ℓ} → A → Result E A → A
or_else d (ok a) = a
or_else d (err e) = d

pub ok_eq {ℓ} : {E A : Type ℓ} {a b : A} → ◌≡◌ {A = Result E A} (ok a) (ok b) → a ≡ b
ok_eq {a = a} h = ap (or_else a) h

-- A test that did not raise held.
pub ensure-ok {ℓ} : {E : Type ℓ} {b : Bool} {t : Unit {ℓ}} (e : E) → ensure b e ≡ ok t → b ≡ true
ensure-ok {b = true} e h = refl
ensure-ok {b = false} e h = cc

pub raise_if-ok {ℓ} :
    {E : Type ℓ} {b : Bool} {t : Unit {ℓ}} (e : E) → raise_if b e ≡ ok t → b ≡ false
raise_if-ok {b = false} e h = refl
raise_if-ok {b = true} e h = cc

-- `[f(x) for x in xs]`, where `f` may raise; the first raise ends it.
abbrev pub traverse {ℓ} : {E A B : Type ℓ} → (A → Result E B) → List A → Result E (List B)
traverse f [] = ok []
traverse f (x ∷ xs) = do y ← f x; ys ← traverse f xs; ok (y ∷ ys)

-- A pure step that may raise, then a step on the state: a raise leaves the state as it was.
module _ {ℓ} {E A B S : Type ℓ} where
  abbrev pub attempt : Result E A → (A → S → Result E B × S) → S → Result E B × S
  attempt (err e) k s = (err e, s)
  attempt (ok a) k s = k a s

  pub attempt_induction {κ} :
      (P : Result E B × S → Type κ) (r : Result E A) (k : A → S → Result E B × S) (s : S)
      → ((e : E) → r ≡ err e → P (err e, s))
      → ((a : A) → r ≡ ok a → P (k a s))
      → P (attempt r k s)
  attempt_induction P (err e) k s p q = p e refl
  attempt_induction P (ok a) k s p q = q a refl

-- A comprehension that returned a list for `x` and the rest returned both parts.
pub traverse_cons {ℓ} :
    {E A B : Type ℓ} (f : A → Result E B) (x : A) (xs : List A) (zs : List B)
    → traverse f (x ∷ xs) ≡ ok zs
    → (y : B) × (ys : List B) × (f x ≡ ok y) × (traverse f xs ≡ ok ys) × (y ∷ ys ≡ zs)
traverse_cons f x xs zs h =
    let (y, rest, first) = returned_by (f x) (λ y. traverse f xs >>= λ ys. ok (y ∷ ys)) zs h in
    let (ys, last, others) = returned_by (traverse f xs) (λ ys. ok (y ∷ ys)) zs rest in
    (y, ys, first, others, cc)
