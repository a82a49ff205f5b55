-- ===== src/Base/Faults.antt =====
-- What a step of the program comes to: a value, or the way in which the process ends or leaves
-- what the language defines.
use mathlib.Core.Path.{◌≡◌, refl}
use mathlib.Core.Logic.{◌⊎◌, inl, inr}
use mathlib.Core.Bool.{Bool, true, false}
use mathlib.Core.Option.{Option, none, some}

-- `assert_failed` and `fatal` are `ASSERT` and `FATAL` of common/macros.h, which leave by `exit`.
-- `out_of_range` is `std::array::at` out of bounds, `null_pointer` a read through `nullptr`,
-- `undefined` any other access outside an array. `out_of_fuel` is the model's own.
pub data Fault : Type 0 where
  assert_failed fatal out_of_range null_pointer undefined out_of_fuel : Fault

pub data Outcome {ℓ} (A : Type ℓ) : Type ℓ where
  ok : A → Outcome A
  fault : Fault → Outcome A

infixl 5 ◌>>=◌ ◌>>◌
abbrev pub ◌>>=◌ {ℓ κ} : {S : Type ℓ} {T : Type κ} → Outcome S → (S → Outcome T) → Outcome T
fault e >>= rest = fault e
ok s >>= rest = rest s

abbrev pub ◌>>◌ {ℓ} : {B : Type ℓ} → Outcome (Unit {0}) → Outcome B → Outcome B
m >> k = m >>= λ _. k

-- `ASSERT(cond, msg)`
abbrev pub assert : Bool → Outcome (Unit {0})
assert true = ok tt
assert false = fault assert_failed

-- the bounds check of `std::array::at`
abbrev pub in_range : Bool → Outcome (Unit {0})
in_range true = ok tt
in_range false = fault out_of_range

-- `*p`
abbrev pub deref {ℓ} : {A : Type ℓ} → Option A → Outcome A
deref none = fault null_pointer
deref (some a) = ok a

-- What a step that came to a value had before it.
pub >>=-eq-ok {ℓ κ} :
    {S : Type ℓ} {T : Type κ} (step : Outcome S) (rest : S → Outcome T) {result : T}
    → (step >>= rest) ≡ ok result
    → (s : S) × (step ≡ ok s) × (rest s ≡ ok result)
>>=-eq-ok (fault e) rest h = cc
>>=-eq-ok (ok s) rest h = (s, refl, h)

pub Outcome-cases {ℓ} :
    {A : Type ℓ} (m : Outcome A) → ((a : A) × (m ≡ ok a)) ⊎ ((f : Fault) × (m ≡ fault f))
Outcome-cases (ok a) = inl (a, refl)
Outcome-cases (fault f) = inr (f, refl)

pub ok-injective {ℓ} : {A : Type ℓ} {a b : A} → ok a ≡ ok b → a ≡ b
ok-injective e = cc

pub fault-injective {ℓ} :
    {A : Type ℓ} {e f : Fault} → ◌≡◌ {A = Outcome A} (fault e) (fault f) → e ≡ f
fault-injective e = cc
