-- ===== src/Prelude/Action.antt =====
-- Python code that calls out to the world, and may raise: the state of the world comes back beside
-- the result, also after a raise.
use prompt_performance_engin.Prelude.Result.{Result, ok, err}
use mathlib.Core.List.{List, [], ◌∷◌}
use mathlib.Core.Path.{◌≡◌, refl, ap}

abbrev pub Action {ℓ} : Type ℓ → Type ℓ → Type ℓ → Type ℓ
Action W E A = W → Result E A × W

module _ {ℓ} {W E A : Type ℓ} where
  abbrev pub pure : A → Action W E A
  pure a w = (ok a, w)

  abbrev pub lift : Result E A → Action W E A
  lift r w = (r, w)

module _ {ℓ} {W E A B : Type ℓ} where
  abbrev pub resume : (A → Action W E B) → Result E A × W → Result E B × W
  resume f (ok a, w) = f a w
  resume f (err e, w) = (err e, w)

  infixl 5 ◌>>=◌ ◌>>◌
  abbrev pub ◌>>=◌ : Action W E A → (A → Action W E B) → Action W E B
  ◌>>=◌ m f w = resume f (m w)

  abbrev pub ◌>>◌ : Action W E A → Action W E B → Action W E B
  m >> n = m >>= λ _. n

  -- What holds of every result of `f` at a value that `m` returned, and of a raise of `m`.
  pub bind_induction {κ} :
      (P : Result E B × W → Type κ) (m : Action W E A) (f : A → Action W E B) (w : W)
      → ((e : E) (v : W) → m w ≡ (err e, v) → P (err e, v))
      → ((a : A) (v : W) → m w ≡ (ok a, v) → P (f a v))
      → P ((m >>= f) w)
  bind_induction P m f w p q = go (m w) refl
    where
      go : (o : Result E A × W) → m w ≡ o → P (resume f o)
      go (ok a, v) e = q a v e
      go (err x, v) e = p x v e

abbrev from_ok {ℓ} : {E A : Type ℓ} → A → Result E A → A
from_ok d (ok a) = a
from_ok d (err e) = d

-- Two ends that are equal have equal results and worlds.
pub ended_eq {ℓ} :
    {W E A : Type ℓ} {a b : A} {u v : W}
    → ◌≡◌ {A = Result E A × W} (ok a, u) (ok b, v)
    → (a ≡ b) × (u ≡ v)
ended_eq {a = a} h = (ap (λ o. from_ok a o.0) h, ap (λ o. o.1) h)

module _ {ℓ} {W E A B : Type ℓ} where
  -- A chain that returned: its first step returned, and its rest from there.
  pub through :
      (m : Action W E A) (f : A → Action W E B) (w : W) {b : B} {v : W}
      → (m >>= f) w ≡ (ok b, v)
      → (a : A) × (u : W) × (m w ≡ (ok a, u)) × (f a u ≡ (ok b, v))
  through m f w {b = b} {v = v} h = go (m w) refl h
    where
      go :
          (o : Result E A × W)
          → m w ≡ o
          → resume f o ≡ (ok b, v)
          → (a : A) × (u : W) × (m w ≡ (ok a, u)) × (f a u ≡ (ok b, v))
      go (ok a, u) e h' = (a, u, e, h')
      go (err x, u) e h' = cc

-- `[f(x) for x in xs]`
abbrev pub for_each {ℓ} : {W E A B : Type ℓ} → (A → Action W E B) → List A → Action W E (List B)
for_each f [] = pure []
for_each f (x ∷ xs) = f x >>= λ y. for_each f xs >>= λ ys. pure (y ∷ ys)
