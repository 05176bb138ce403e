-- ===== src/Base/Outcome.antt =====
-- How a run of the configuration processor ends: with a value, or by the first panic or
-- exception that it meets.
use mathlib.Core.Path.{◌≡◌, refl}
use mathlib.Core.Bool.{Bool, true, false}
use mathlib.Core.Option.{Option, none, some}

-- `panic().wtf(...)` of the processor, by its message; a failed `assert`; and the two exceptions
-- of the YAML library that its calls may throw.
pub data Failure : Type 0 where
  multiple_define unsupported_mode exclusive_modes : Failure
  patch_non_existed same_config_existed : Failure
  assertion bad_conversion bad_subscript : Failure

pub data Outcome {ℓ} (A : Type ℓ) : Type ℓ where
  fail : Failure → Outcome A
  ok : A → Outcome A

-- What comes next is run unless the run has failed.
abbrev pub ◌>>=◌ {ℓ κ} :
    {A : Type ℓ} {B : Type κ} (m : Outcome A) (next : A → Outcome B) → Outcome B
fail reason >>= next = fail reason
ok value >>= next = next value

-- The same after a test, whose value says nothing.
abbrev pub ◌>>◌ {κ} : {B : Type κ} (m : Outcome (Unit {0})) (next : Outcome B) → Outcome B
fail reason >> next = fail reason
ok value >> next = next

infixl 5 ◌>>=◌ ◌>>◌
-- A panic under a test.
abbrev pub fail_if : Bool → Failure → Outcome (Unit {0})
fail_if true e = fail e
fail_if false e = ok tt

abbrev pub of_option {ℓ} : {A : Type ℓ} → Failure → Option A → Outcome A
of_option e none = fail e
of_option e (some a) = ok a

-- A run that succeeds as a whole has succeeded with some value and gone on from it.
pub >>=-eq-ok {ℓ κ} :
    {A : Type ℓ} {B : Type κ} (first : Outcome A) (next : A → Outcome B) {last : B}
    (whole : (first >>= next) ≡ ok last)
    → (value : A) × (first ≡ ok value) × (next value ≡ ok last)
>>=-eq-ok (fail reason) next whole = cc
>>=-eq-ok (ok value) next whole = (value, refl, whole)

pub ok-injective {ℓ} : {A : Type ℓ} {a b : A} → ok a ≡ ok b → a ≡ b
ok-injective h = cc
