-- ===== src/Common/Checked.antt =====
-- What a C function that parses or writes a buffer does: it returns a value, it returns -1, or it
-- reaches outside the memory that it was given.
use mathlib.Core.Path.{◌≡◌, refl}
use mathlib.Core.Logic.{◌≢◌}
use mathlib.Core.Bool.{Bool, true, false}

pub data Outcome {ℓ} (A : Type ℓ) : Type ℓ where
  ok : A → Outcome A
  -- the function returns -1
  fail : Outcome A
  -- an access outside the buffer: undefined behaviour in C
  fault : Outcome A

infixl 5 ◌>>=◌ ◌>>◌
abbrev pub ◌>>=◌ {ℓ κ} : {A : Type ℓ} {B : Type κ} → Outcome A → (A → Outcome B) → Outcome B
fault >>= next = fault
fail >>= next = fail
ok x >>= next = next x

abbrev pub ◌>>◌ {κ} : {B : Type κ} → Outcome (Unit {0}) → Outcome B → Outcome B
check >> rest = check >>= λ _. rest

-- `if (!test) return -1;`
abbrev pub require : Bool → Outcome (Unit {0})
require true = ok tt
require false = fail

-- An access that is defined behaviour only if `test` holds.
abbrev pub within : Bool → Outcome (Unit {0})
within true = ok tt
within false = fault

-- A sequence that succeeds: what its first part gave.
pub >>=-eq-ok {ℓ κ} :
    {A : Type ℓ} {B : Type κ} (first : Outcome A) (next : A → Outcome B) {result : B}
    → (first >>= next) ≡ ok result
    → (x : A) × (first ≡ ok x) × (next x ≡ ok result)
>>=-eq-ok (ok x) next e = (x, refl, e)
>>=-eq-ok fail next e = cc
>>=-eq-ok fault next e = cc

pub >>=-ne-fault {ℓ κ} :
    {A : Type ℓ} {B : Type κ} (first : Outcome A) (next : A → Outcome B)
    → first ≢ fault
    → ((x : A) → first ≡ ok x → next x ≢ fault)
    → (first >>= next) ≢ fault
>>=-ne-fault (ok x) next safe go = go x refl
>>=-ne-fault fail next safe go = λ e. cc
>>=-ne-fault fault next safe go = absurd (safe refl)
