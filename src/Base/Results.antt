-- ===== src/Base/Results.antt =====
-- A Go result `(value, error)`: a value, or an error of type `E`.

use mathlib.Core.Path.{◌≡◌, refl}

pub data Result {ℓ κ} (E : Type ℓ) (A : Type κ) : Type (ℓ ⊔ κ) where
  ok : A → Result E A
  err : E → Result E A

infixl 5 ◌>>=◌
abbrev pub ◌>>=◌ {ℓ κ μ} :
    {E : Type ℓ} {A : Type κ} {B : Type μ} → Result E A → (A → Result E B) → Result E B
ok a >>= f = f a
err e >>= f = err e

-- A chain with a value has a value at its first step, from which the rest goes on.
pub bind_value {ℓ κ μ} :
    {E : Type ℓ} {A : Type κ} {B : Type μ} {next : A → Result E B} {out : B} (first : Result E A)
    → (first >>= next) ≡ ok out
    → (mid : A) × (first ≡ ok mid) × (next mid ≡ ok out)
bind_value (err e) h = cc
bind_value (ok mid) h = (mid, refl, h)
