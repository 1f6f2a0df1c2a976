-- ===== src/Prelude/Outcome.antt =====
-- A value or an error: Go's pair of a result and an `error`.
use mathlib.Core.Path.{◌≡◌, refl, ap}

pub data Result {ℓ κ} (E : Type ℓ) (A : Type κ) : Type (ℓ ⊔ κ) where
  ok : A → Result E A
  err : E → Result E A

-- `if err != nil { return err }` after each step.
infixl 5 ◌>>=◌
abbrev pub ◌>>=◌ {ℓ κ μ} :
    {E : Type ℓ} {A : Type κ} {B : Type μ} → Result E A → (A → Result E B) → Result E B
ok a >>= next = next a
err e >>= next = err e

-- A chain that succeeds has a first step that succeeds.
pub bind-ok {ℓ κ μ} :
    {E : Type ℓ} {A : Type κ} {B : Type μ} (step : Result E A) (next : A → Result E B) {b : B}
    → step >>= next ≡ ok b
    → (a : A) × (step ≡ ok a) × (next a ≡ ok b)
bind-ok (ok a) next h = (a, refl, h)
bind-ok (err e) next h = cc

-- The same, for a goal: what the first step gave is a variable in it.
pub bind-elim {ℓ κ μ ν} :
    {E : Type ℓ} {A : Type κ} {B : Type μ} {G : Type ν} (step : Result E A) (next : A → Result E B)
    {b : B}
    → step >>= next ≡ ok b
    → ((a : A) → step ≡ ok a → next a ≡ ok b → G)
    → G
bind-elim (ok a) next h f = f a refl h
bind-elim (err e) next h f = cc

-- What stands in a result.
abbrev pub result_of {ℓ κ} : {E : Type ℓ} {A : Type κ} → A → Result E A → A
result_of d (ok a) = a
result_of d (err e) = d

pub ok-inj {ℓ κ} : {E : Type ℓ} {A : Type κ} {a b : A} → ◌≡◌ {A = Result E A} (ok a) (ok b) → a ≡ b
ok-inj {a} e = ap (result_of a) e
