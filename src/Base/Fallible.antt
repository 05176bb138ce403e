-- ===== src/Base/Fallible.antt =====
-- Chains of steps that may fail without a reason.
use mathlib.Core.Path.{◌≡◌, refl}
use mathlib.Core.Option.{Option, none, some}

infixl 5 ◌>>=◌
abbrev pub ◌>>=◌ {ℓ κ} :
    {A : Type ℓ} {B : Type κ} (step : Option A) (next : A → Option B) → Option B
none >>= next = none
some value >>= next = next value

-- a chain that gives a result has passed its first step
pub passed {ℓ κ} :
    {A : Type ℓ} {B : Type κ} (step : Option A) (next : A → Option B) {result : B}
    → (step >>= next) ≡ some result
    → (value : A) × (step ≡ some value) × (next value ≡ some result)
passed none next h = cc
passed (some value) next h = (value, refl, h)
