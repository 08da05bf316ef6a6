-- ===== src/Prelude/Outcomes.antt =====
-- A call that returns or throws an `Error` with a message.
use mathlib.Core.Path.{◌≡◌, refl}
use mathlib.Core.Logic.{◌⊎◌, inl, inr}
use mathlib.Core.Bool.{Bool, true, false}
use distributed_wbpp.Prelude.Texts.{Text}
use native.Mathlib.Omega.{arith}

pub data Outcome {ℓ} (A : Type ℓ) : Type ℓ where
  ok : A → Outcome A
  throw : Text → Outcome A

-- `if ( bad ) throw new Error( e )`
abbrev pub throw_if : Bool → Text → Outcome (Unit {0})
throw_if true e = throw e
throw_if false e = ok tt

-- What follows a call that threw is not run.
infixl 5 ◌>>=◌
abbrev pub ◌>>=◌ {ℓ κ} : {A : Type ℓ} {B : Type κ} → Outcome A → (A → Outcome B) → Outcome B
throw message >>= next = throw message
ok x >>= next = next x

infixl 5 ◌>>◌
abbrev pub ◌>>◌ {ℓ} : {B : Type ℓ} → Outcome (Unit {0}) → Outcome B → Outcome B
first >> next = first >>= λ _. next

pub Outcome-cases {ℓ} :
    {A : Type ℓ} (o : Outcome A) → ((a : A) × (o ≡ ok a)) ⊎ ((e : Text) × (o ≡ throw e))
Outcome-cases (ok a) = inl (a, refl)
Outcome-cases (throw e) = inr (e, refl)

-- A chain that returned: its first call returned too, and then the rest.
pub >>=-eq-ok {ℓ κ} :
    {A : Type ℓ} {B : Type κ} (first : Outcome A) (rest : A → Outcome B) {result : B}
    → (first >>= rest) ≡ ok result
    → (x : A) × (first ≡ ok x) × (rest x ≡ ok result)
>>=-eq-ok (throw message) rest h = cc
>>=-eq-ok (ok x) rest h = (x, refl, h)

pub throw_if-ok : (b : Bool) (e : Text) → throw_if b e ≡ ok tt → b ≡ false
throw_if-ok b e h = ground arith
